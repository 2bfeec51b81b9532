-- ===== src/Txmngr/Safety/Signing.antt =====
-- `persistUniqueAttempt` of evm/txmngr/txmngr.go: a candidate that it returns is durable.
use superform_go_utils.Prelude.{
  ℕ, zero, suc, List, [], ◌∷◌, Option, none, some, Text, Bool, true, false, ◌≡◌, refl, inl, inr,
  Option-cases, subst, if◌then◌else◌,
}
use superform_go_utils.Txmngr.Types.{Hash, SignedTx, Transaction, TransactionAttempt, Authorization}
use superform_go_utils.Txmngr.Errors.{Failure}
use superform_go_utils.Txmngr.Fees.{GasFee}
use superform_go_utils.Txmngr.Mem.{insert_attempt}
use superform_go_utils.Txmngr.Action
use superform_go_utils.Txmngr.Action.{Action, State, Result, ok, err, try, write, fail, ◌>>=◌, ◌>>◌}
use superform_go_utils.Txmngr.Manager.{Manager, Reply, reply, refused, max_hash_collision_resigns}
use superform_go_utils.Txmngr.Sign.{
  answered, require_client, suggest_gas_price, required_base_fee, suggest_eip1559_gas_fee,
  checked_signer, load_signer, suggest_fee, sign_attempt, attempt_from, collision_floor,
  floor_or_absent, resolve_collision, after_insert, persist_round, persist_unique_attempt,
}
use superform_go_utils.Txmngr.Safety.Durable.{IsDurable}
use superform_go_utils.Txmngr.Safety.Keeps.{
  Keeps, Keeps-pure, Keeps-try, Keeps-bind, Keeps-wrapping,
}
use superform_go_utils.Txmngr.Safety.Primitives.{Keeps-insert_attempt, insert_attempt-IsDurable}
use superform_go_utils.Txmngr.Safety.Sending.{keeps_rules, Keeps-now}

pub same_hash : (signed other : SignedTx) → some signed ≡ some other → other.hash ≡ signed.hash
same_hash signed other e = cc

module _ (m : Manager) (xs : List TransactionAttempt) where
  Keeps-answered : {A : Type 0} (operation : Text) (r : Reply A) → Keeps xs (answered m operation r)
  unfolding answered
  Keeps-answered operation (reply a) = search keeps_rules
  Keeps-answered operation (refused e) = search keeps_rules

  Keeps-require_client : (chain_id : ℕ) → Keeps xs (require_client m chain_id)
  unfolding require_client
  Keeps-require_client chain_id = search keeps_rules

  Keeps-suggest_gas_price :
      (chain_id : ℕ) (current : Option GasFee) (coef : ℕ)
      → Keeps xs (suggest_gas_price m chain_id current coef)
  unfolding suggest_gas_price
  Keeps-suggest_gas_price chain_id current coef =
      search (keeps_rules, Keeps-answered, Keeps-require_client)

  Keeps-required_base_fee : (fee : Option ℕ) → Keeps xs (required_base_fee m fee)
  unfolding required_base_fee
  Keeps-required_base_fee none = search keeps_rules
  Keeps-required_base_fee (some fee) = search keeps_rules

  Keeps-suggest_eip1559 :
      (chain_id : ℕ) (current : Option GasFee) (coef : ℕ)
      → Keeps xs (suggest_eip1559_gas_fee m chain_id current coef)
  unfolding suggest_eip1559_gas_fee
  Keeps-suggest_eip1559 chain_id current coef =
      search (keeps_rules, Keeps-answered, Keeps-require_client, Keeps-required_base_fee) depth 12

  Keeps-load_signer : (chain_id : ℕ) → Keeps xs (load_signer m chain_id)
  unfolding load_signer
  Keeps-load_signer chain_id = elim (Option-cases m.get_transact_opts) [
    | inl e ↦ rw (e, load_signer) (search keeps_rules)
    | inr (provider, e) ↦ rw (e, load_signer) (search (keeps_rules, checked))
  ]
    where
      checked : (auth : Option ℕ) → Keeps xs (checked_signer m auth)
      checked none = search keeps_rules
      checked (some from) = search keeps_rules

  Keeps-suggest_fee :
      (tx : Transaction) (current : Option GasFee) (coef : ℕ)
      → Keeps xs (suggest_fee m tx current coef)
  unfolding suggest_fee
  Keeps-suggest_fee tx current coef = by_kind tx.raw_authorizations refl
    where
      by_kind :
          (kind : List Authorization)
          → tx.raw_authorizations ≡ kind
          → Keeps xs (suggest_fee m tx current coef)
      by_kind [] e = rw (e, suggest_fee) (search (keeps_rules, Keeps-suggest_gas_price))
      by_kind (a ∷ rest) e = rw (e, suggest_fee) (search (keeps_rules, Keeps-suggest_eip1559))

  Keeps-sign_attempt :
      (tx : Transaction) (attempts : List TransactionAttempt) (floor : Option GasFee)
      → Keeps xs (sign_attempt m tx attempts floor)
  unfolding sign_attempt
  Keeps-sign_attempt tx attempts floor = search (keeps_rules, Keeps-load_signer, Keeps-suggest_fee)

  Keeps-collision_floor :
      (tx : Transaction) (attempt : TransactionAttempt) (signed : SignedTx)
      → Keeps xs (collision_floor m tx attempt signed)
  unfolding collision_floor floor_or_absent
  Keeps-collision_floor tx attempt signed = search (keeps_rules, floor_of)
    where
      floor_of : (highest : Option GasFee) → Keeps xs (floor_or_absent m attempt highest)
      floor_of none = search keeps_rules
      floor_of (some floor) = Keeps-pure xs floor

  Keeps-resolve :
      (tx : Transaction) (previous : Option Hash) (attempt : TransactionAttempt)
      → (signed : SignedTx) (e : Failure) (again : GasFee → Action TransactionAttempt)
      → ((floor : GasFee) → Keeps xs (again floor))
      → Keeps xs (resolve_collision m tx previous attempt signed e again)
  unfolding resolve_collision
  Keeps-resolve tx previous attempt signed e again k = search (keeps_rules, Keeps-collision_floor)

  Keeps-after_insert :
      (tx : Transaction) (previous : Option Hash) (attempt : TransactionAttempt)
      → (signed : SignedTx) (again : GasFee → Action TransactionAttempt)
      → ((floor : GasFee) → Keeps xs (again floor))
      → (inserted : Result (Unit {0}))
      → Keeps xs (after_insert m tx previous attempt signed again inserted)
  unfolding after_insert
  Keeps-after_insert tx previous attempt signed again k (ok done) = Keeps-pure xs attempt
  Keeps-after_insert tx previous attempt signed again k (err e) =
      Keeps-resolve tx previous attempt signed e again k

  Keeps-persist_round :
      (rounds : ℕ) (tx : Transaction) (attempts : List TransactionAttempt)
      → (floor : Option GasFee) (previous : Option Hash)
      → Keeps xs (persist_round m rounds tx attempts floor previous)
  unfolding persist_round
  Keeps-persist_round zero tx attempts floor previous = search keeps_rules
  Keeps-persist_round (suc rounds) tx attempts floor previous =
      Keeps-bind xs _ _ (Keeps-wrapping xs _ _ (Keeps-sign_attempt tx attempts floor)) λ signed.
        Keeps-bind xs _ _ (Keeps-now m xs) λ time.
          Keeps-bind xs _ _
            (Keeps-try xs _ (
              Keeps-insert_attempt xs m.hash_hex (attempt_from m tx signed time)
                (same_hash signed)))
            (Keeps-after_insert tx previous (attempt_from m tx signed time) signed _
              (λ next. Keeps-persist_round rounds tx attempts (some next) (some signed.hash)))

  pub Keeps-persist_unique :
      (tx : Transaction) (attempts : List TransactionAttempt)
      → Keeps xs (persist_unique_attempt m tx attempts)
  unfolding persist_unique_attempt
  Keeps-persist_unique tx attempts =
      Keeps-persist_round max_hash_collision_resigns tx attempts none none

-- Whatever the action returns is durable in the state that it leaves.
pub record Yields (f : Action TransactionAttempt) : Type 0 where
  pub at : (s : State) (a : TransactionAttempt) → (f s).0 ≡ ok a → IsDurable (f s).1.store a

Yields-fail : (e : Failure) → Yields (fail e)
unfolding fail
Yields-fail e = record { at = λ s a h. cc }

continue-Yields :
    {A : Type 0} (f : A → Action TransactionAttempt) (o : Result A × State)
    → ((b : A) → o.0 ≡ ok b → Yields (f b))
    → (a : TransactionAttempt) → (◌>>=◌ (λ (_ : State). o) f o.1).0 ≡ ok a
    → IsDurable (◌>>=◌ (λ (_ : State). o) f o.1).1.store a
unfolding ◌>>=◌
continue-Yields f (ok b, t) k a h = (k b refl).at t a h
continue-Yields f (err e, t) k a h = cc

Yields-bind :
    {A : Type 0} (g : Action A) (f : A → Action TransactionAttempt)
    → ((b : A) → Yields (f b))
    → Yields (g >>= f)
unfolding ◌>>=◌
Yields-bind g f k = record { at = λ s a h. continue-Yields f (g s) (λ b _. k b) a h }

Yields-if :
    (b : Bool) (f g : Action TransactionAttempt) → Yields f → Yields g → Yields (if b then f else g)
Yields-if true f g kf kg = kf
Yields-if false f g kf kg = kg

module _ (m : Manager) where
  Yields-resolve :
      (tx : Transaction) (previous : Option Hash) (attempt : TransactionAttempt)
      → (signed : SignedTx) (e : Failure) (again : GasFee → Action TransactionAttempt)
      → ((floor : GasFee) → Yields (again floor))
      → Yields (resolve_collision m tx previous attempt signed e again)
  unfolding resolve_collision
  Yields-resolve tx previous attempt signed e again k = search (Yields-if, Yields-fail, Yields-bind)

  inserted-Yields :
      (tx : Transaction) (previous : Option Hash) (attempt : TransactionAttempt)
      → (signed : SignedTx) (again : GasFee → Action TransactionAttempt)
      → ((floor : GasFee) → Yields (again floor))
      → (o : Result (Unit {0}) × State) → (o.0 ≡ ok tt → IsDurable o.1.store attempt)
      → (a : TransactionAttempt)
      → (after_insert m tx previous attempt signed again o.0 o.1).0 ≡ ok a
      → IsDurable (after_insert m tx previous attempt signed again o.0 o.1).1.store a
  unfolding after_insert Action.pure
  inserted-Yields tx previous attempt signed again k (ok tt, t) durable a h =
      let same : attempt ≡ a = cc in subst (IsDurable t.store) same (durable refl)
  inserted-Yields tx previous attempt signed again k (err e, t) durable a h =
      (Yields-resolve tx previous attempt signed e again k).at t a h

  Yields-insert :
      (tx : Transaction) (previous : Option Hash) (attempt : TransactionAttempt)
      → (signed : SignedTx) (again : GasFee → Action TransactionAttempt)
      → ((other : SignedTx) → attempt.tx ≡ some other → other.hash ≡ attempt.hash)
      → ((floor : GasFee) → Yields (again floor))
      → Yields (
          try (write (λ q. insert_attempt m.hash_hex q attempt))
          >>= after_insert m tx previous attempt signed again)
  unfolding ◌>>=◌ try
  Yields-insert tx previous attempt signed again matches k = record {
    at = λ s a h.
        inserted-Yields tx previous attempt signed again k
          (write (λ q. insert_attempt m.hash_hex q attempt) s)
          (insert_attempt-IsDurable s m.hash_hex attempt matches) a h;
  }

  Yields-persist_round :
      (rounds : ℕ) (tx : Transaction) (attempts : List TransactionAttempt)
      → (floor : Option GasFee) (previous : Option Hash)
      → Yields (persist_round m rounds tx attempts floor previous)
  unfolding persist_round
  Yields-persist_round zero tx attempts floor previous = Yields-fail _
  Yields-persist_round (suc rounds) tx attempts floor previous = Yields-bind _ _ λ signed.
      Yields-bind _ _ λ time.
        Yields-insert tx previous (attempt_from m tx signed time) signed _ (same_hash signed)
          (λ next. Yields-persist_round rounds tx attempts (some next) (some signed.hash))

  pub Yields-persist_unique :
      (tx : Transaction) (attempts : List TransactionAttempt)
      → Yields (persist_unique_attempt m tx attempts)
  unfolding persist_unique_attempt
  Yields-persist_unique tx attempts =
      Yields-persist_round max_hash_collision_resigns tx attempts none none
