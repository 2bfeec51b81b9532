-- ===== src/Txmngr/Nonces/Signing.antt =====
-- `persistUniqueAttempt` of evm/txmngr/txmngr.go changes no row and no lane.
use superform_go_utils.Prelude.{
  ℕ, zero, suc, List, [], ◌∷◌, Option, none, some, Text, ◌≡◌, refl, inl, inr, Option-cases,
}
use superform_go_utils.Txmngr.Types.{Hash, SignedTx, Transaction, TransactionAttempt, Authorization}
use superform_go_utils.Txmngr.Errors.{Failure}
use superform_go_utils.Txmngr.Fees.{GasFee}
use superform_go_utils.Txmngr.Action.{Action, Result, ok, err}
use superform_go_utils.Txmngr.Manager.{Manager, Reply, reply, refused, max_hash_collision_resigns}
use superform_go_utils.Txmngr.Sign.{
  answered, require_client, suggest_gas_price, required_base_fee, suggest_eip1559_gas_fee,
  checked_signer, load_signer, suggest_fee, sign_attempt, attempt_from, collision_floor,
  floor_or_absent, resolve_collision, after_insert, persist_round, persist_unique_attempt,
}
use superform_go_utils.Txmngr.Nonces.{
  Retains, Retains-pure, Retains-try, Retains-bind, Retains-wrapping, Retains-insert, retaining,
}
use superform_go_utils.Txmngr.Nonces.Scheduling.{Retains-now}

module _ (m : Manager) (id : Text) (n : ℕ) where
  Retains-answered :
      {A : Type 0} (operation : Text) (r : Reply A) → Retains id n (answered m operation r)
  unfolding answered
  Retains-answered operation (reply a) = search retaining
  Retains-answered operation (refused e) = search retaining

  Retains-require_client : (chain_id : ℕ) → Retains id n (require_client m chain_id)
  unfolding require_client
  Retains-require_client chain_id = search retaining

  Retains-suggest_gas_price :
      (chain_id : ℕ) (current : Option GasFee) (coef : ℕ)
      → Retains id n (suggest_gas_price m chain_id current coef)
  unfolding suggest_gas_price
  Retains-suggest_gas_price chain_id current coef =
      search (retaining, Retains-answered, Retains-require_client)

  Retains-required_base_fee : (fee : Option ℕ) → Retains id n (required_base_fee m fee)
  unfolding required_base_fee
  Retains-required_base_fee none = search retaining
  Retains-required_base_fee (some fee) = search retaining

  Retains-suggest_eip1559 :
      (chain_id : ℕ) (current : Option GasFee) (coef : ℕ)
      → Retains id n (suggest_eip1559_gas_fee m chain_id current coef)
  unfolding suggest_eip1559_gas_fee
  Retains-suggest_eip1559 chain_id current coef =
      search (retaining, Retains-answered, Retains-require_client, Retains-required_base_fee) depth
        12

  Retains-load_signer : (chain_id : ℕ) → Retains id n (load_signer m chain_id)
  unfolding load_signer
  Retains-load_signer chain_id = elim (Option-cases m.get_transact_opts) [
    | inl e ↦ rw (e, load_signer) (search retaining)
    | inr (provider, e) ↦ rw (e, load_signer) (search (retaining, checked))
  ]
    where
      checked : (auth : Option ℕ) → Retains id n (checked_signer m auth)
      checked none = search retaining
      checked (some from) = search retaining

  Retains-suggest_fee :
      (tx : Transaction) (current : Option GasFee) (coef : ℕ)
      → Retains id n (suggest_fee m tx current coef)
  unfolding suggest_fee
  Retains-suggest_fee tx current coef = by_kind tx.raw_authorizations refl
    where
      by_kind :
          (kind : List Authorization)
          → tx.raw_authorizations ≡ kind
          → Retains id n (suggest_fee m tx current coef)
      by_kind [] e = rw (e, suggest_fee) (search (retaining, Retains-suggest_gas_price))
      by_kind (a ∷ rest) e = rw (e, suggest_fee) (search (retaining, Retains-suggest_eip1559))

  Retains-sign_attempt :
      (tx : Transaction) (attempts : List TransactionAttempt) (floor : Option GasFee)
      → Retains id n (sign_attempt m tx attempts floor)
  unfolding sign_attempt
  Retains-sign_attempt tx attempts floor =
      search (retaining, Retains-load_signer, Retains-suggest_fee)

  Retains-collision_floor :
      (tx : Transaction) (attempt : TransactionAttempt) (signed : SignedTx)
      → Retains id n (collision_floor m tx attempt signed)
  unfolding collision_floor floor_or_absent
  Retains-collision_floor tx attempt signed = search (retaining, floor_of)
    where
      floor_of : (highest : Option GasFee) → Retains id n (floor_or_absent m attempt highest)
      floor_of none = search retaining
      floor_of (some floor) = Retains-pure id n floor

  Retains-resolve :
      (tx : Transaction) (previous : Option Hash) (attempt : TransactionAttempt)
      → (signed : SignedTx) (e : Failure) (again : GasFee → Action TransactionAttempt)
      → ((floor : GasFee) → Retains id n (again floor))
      → Retains id n (resolve_collision m tx previous attempt signed e again)
  unfolding resolve_collision
  Retains-resolve tx previous attempt signed e again k = search (retaining, Retains-collision_floor)

  Retains-after_insert :
      (tx : Transaction) (previous : Option Hash) (attempt : TransactionAttempt)
      → (signed : SignedTx) (again : GasFee → Action TransactionAttempt)
      → ((floor : GasFee) → Retains id n (again floor))
      → (inserted : Result (Unit {0}))
      → Retains id n (after_insert m tx previous attempt signed again inserted)
  unfolding after_insert
  Retains-after_insert tx previous attempt signed again k (ok done) = Retains-pure id n attempt
  Retains-after_insert tx previous attempt signed again k (err e) =
      Retains-resolve tx previous attempt signed e again k

  Retains-persist_round :
      (rounds : ℕ) (tx : Transaction) (attempts : List TransactionAttempt)
      → (floor : Option GasFee) (previous : Option Hash)
      → Retains id n (persist_round m rounds tx attempts floor previous)
  unfolding persist_round
  Retains-persist_round zero tx attempts floor previous = search retaining
  Retains-persist_round (suc rounds) tx attempts floor previous =
      Retains-bind id n _ _ (Retains-wrapping id n _ _ (Retains-sign_attempt tx attempts floor))
        λ signed. Retains-bind id n _ _ (Retains-now m id n) λ time.
          Retains-bind id n _ _
            (Retains-try id n _ (Retains-insert id n m.hash_hex (attempt_from m tx signed time)))
            (Retains-after_insert tx previous (attempt_from m tx signed time) signed _
              (λ next. Retains-persist_round rounds tx attempts (some next) (some signed.hash)))

  pub Retains-persist_unique :
      (tx : Transaction) (attempts : List TransactionAttempt)
      → Retains id n (persist_unique_attempt m tx attempts)
  unfolding persist_unique_attempt
  Retains-persist_unique tx attempts =
      Retains-persist_round max_hash_collision_resigns tx attempts none none
