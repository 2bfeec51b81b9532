-- ===== src/Txmngr/Sign.antt =====
-- Signing one candidate: `signAttempt`, `suggestGasPrice`, `suggestEIP1559GasFee` and
-- `persistUniqueAttempt` of evm/txmngr/txmngr.go.
use superform_go_utils.Prelude.{
  ℕ, zero, suc, ◌+◌, ◌*◌, List, [], ◌∷◌, Option, none, some, Text, Bool, false, not, sprintf,
  decimal, if◌then◌else◌, ◌==◌, nat_eq, get_last?, length,
}
use superform_go_utils.Txmngr.Types.{Address, Hash, SignedTx, Transaction, TransactionAttempt}
use superform_go_utils.Txmngr.Errors.{
  Failure, attempt_hash_conflict, sentinel_text, errorf, plain, is, prefixed,
}
use superform_go_utils.Txmngr.Fees.{GasFee, highest_gas_fee, gas_price_from, eip1559_fee_from}
use superform_go_utils.Txmngr.Mem.{insert_attempt, select_attempts_by_nonce}
use superform_go_utils.Txmngr.Action.{
  Action, Result, ok, err, ◌>>=◌, ◌>>◌, pure, fail, ask, gets, lift, try, write, wrapping,
}
use superform_go_utils.Txmngr.Manager.{
  Manager, Reply, reply, refused, Envelope, set_code_tx, legacy_tx, now, has_client,
  priority_coefficient, max_hash_collision_resigns,
}
use superform_go_utils.Txmngr.Summary.{redacted_rpc_error}
use superform_go_utils.Txmngr.Attempts.{fee_of, highest_attempt_fee}

abbrev pub or_zero_wei : Option ℕ → ℕ
or_zero_wei none = 0
or_zero_wei (some v) = v

-- The fee of the newest attempt, if there is one.
abbrev pub attempt_fee : TransactionAttempt → Option GasFee
attempt_fee a = elim a.tx [ none ↦ none | some tx ↦ some (fee_of tx) ]

unfoldable pub previous_fee : List TransactionAttempt → Option GasFee
previous_fee attempts = elim (get_last? attempts) [ none ↦ none | some a ↦ attempt_fee a ]

module _ (m : Manager) where
  -- A reply of a node, or its redacted error.
  unfoldable pub answered : {A : Type 0} → Text → Reply A → Action A
  answered operation (reply a) = pure a
  answered operation (refused e) = fail (redacted_rpc_error m operation e)

  unfoldable pub require_client : ℕ → Action (Unit {0})
  require_client chain_id =
      if has_client m chain_id
      then pure tt
      else fail (errorf "no client found for chainId: %d" (decimal chain_id ∷ []) [])

  unfoldable pub suggest_gas_price : ℕ → Option GasFee → ℕ → Action GasFee
  suggest_gas_price chain_id current coef = do
    require_client chain_id
    answer ← ask (λ t. m.suggest_gas_price t chain_id)
    suggested ←
        answered (sprintf "suggesting gas price for chain %d" (decimal chain_id ∷ [])) answer
    pure (gas_price_from suggested current coef)

  unfoldable pub required_base_fee : Option ℕ → Action ℕ
  required_base_fee none =
      fail
        (plain "client returned a block header without a base fee, EIP-1559 may not be supported")
  required_base_fee (some fee) = pure fee

  unfoldable pub suggest_eip1559_gas_fee : ℕ → Option GasFee → ℕ → Action GasFee
  suggest_eip1559_gas_fee chain_id current coef = do
    require_client chain_id
    header_answer ← ask (λ t. m.latest_base_fee t chain_id)
    header ←
        answered (sprintf "getting latest block header for chain %d" (decimal chain_id ∷ []))
          header_answer
    base_fee ← required_base_fee header
    tip_answer ← ask (λ t. m.suggest_gas_tip_cap t chain_id)
    tip ←
        answered (sprintf "suggesting gas tip cap for chain %d" (decimal chain_id ∷ [])) tip_answer
    pure (eip1559_fee_from base_fee tip current coef)

  -- The signer's address, past the guards at the head of `signAttempt`.
  abbrev pub checked_signer : Option Address → Action (Unit {0})
  checked_signer none = fail (plain "transact options are nil")
  checked_signer (some from) =
      if not (from == m.sender)
      then fail (
          errorf "transact signer %s differs from nonce-lane sender %s"
            (m.address_hex from ∷ m.address_hex m.sender ∷ []) [])
      else pure tt

  unfoldable pub load_signer : ℕ → Action (Unit {0})
  load_signer chain_id = elim m.get_transact_opts [
    | none ↦ fail (plain "transact options provider is nil")
    | some provider ↦ do
      answer ← ask (λ t. provider t chain_id)
      auth ← wrapping (prefixed "loading transact options: %w") (lift answer)
      checked_signer auth
  ]

  -- `*tx.AssignedNonce`; the callers have set it.
  abbrev pub nonce_of : Transaction → ℕ
  nonce_of tx = or_zero_wei tx.assigned_nonce

  -- The envelope of a fee that has been suggested.
  unfoldable pub envelope_of : Transaction → GasFee → Envelope
  envelope_of tx fee = elim tx.raw_authorizations [
    | [] ↦
        legacy_tx tx.address (nonce_of tx) (or_zero_wei fee.gas_price) tx.gas_limit tx.tx_data
          (or_zero_wei tx.value)
    | a ∷ rest ↦
        set_code_tx tx.address (nonce_of tx) (or_zero_wei fee.gas_tip_cap)
          (or_zero_wei fee.gas_fee_cap) tx.gas_limit tx.tx_data (or_zero_wei tx.value)
          tx.raw_authorizations
  ]

  -- The fee that the next candidate pays, over the previous candidate and a floor.
  unfoldable pub suggest_fee : Transaction → Option GasFee → ℕ → Action GasFee
  suggest_fee tx current coef = elim tx.raw_authorizations [
    | [] ↦
        wrapping (prefixed "suggesting gas price: %w") (suggest_gas_price tx.chain_id current coef)
    | a ∷ rest ↦
        wrapping (prefixed "suggesting EIP-1559 gas fee: %w")
          (suggest_eip1559_gas_fee tx.chain_id current coef)
  ]

  unfoldable pub sign_attempt :
      Transaction → List TransactionAttempt → Option GasFee → Action SignedTx
  sign_attempt tx attempts fee_floor = do
    load_signer tx.chain_id
    fee ←
        suggest_fee tx (highest_gas_fee (previous_fee attempts) fee_floor)
          (priority_coefficient * (length attempts + 1))
    answer ← ask (λ t. m.sign t tx.chain_id (envelope_of tx fee))
    lift answer

  abbrev pub attempt_from : Transaction → SignedTx → ℕ → TransactionAttempt
  attempt_from tx signed time = record {
    transaction_id = tx.id;
    hash = signed.hash;
    nonce = signed.nonce;
    tx = some signed;
    created_at = time;
  }

  -- Whether re-signing above the floor gave the hash of the round before.
  abbrev pub unchanged_hash : Option Hash → Hash → Bool
  unchanged_hash none hash = false
  unchanged_hash (some previous) hash = hash == previous

  unfoldable pub floor_or_absent : TransactionAttempt → Option GasFee → Action GasFee
  floor_or_absent attempt (some floor) = pure floor
  floor_or_absent attempt none = fail (
      errorf "%w: conflicting hash %s is absent from durable lane history"
        (sentinel_text attempt_hash_conflict ∷ m.hash_hex attempt.hash ∷ [])
        (attempt_hash_conflict ∷ []))

  -- The floor for the next round, from the durable history of the nonce.
  unfoldable pub collision_floor : Transaction → TransactionAttempt → SignedTx → Action GasFee
  collision_floor tx attempt signed = do
    history ← gets (λ s. select_attempts_by_nonce m.hash_hex s.store tx.chain_id attempt.nonce)
    highest ← wrapping (prefixed "deriving collision fee floor: %w") (
        lift (
          highest_attempt_fee m.hash_hex m.address_hex history m.sender tx.chain_id signed.tx_type))
    floor_or_absent attempt highest

  -- What a round of `persistUniqueAttempt` does once its insert has failed; `again` is the next.
  unfoldable pub resolve_collision :
      Transaction
      → Option Hash
      → TransactionAttempt
      → SignedTx
      → Failure
      → (GasFee → Action TransactionAttempt)
      → Action TransactionAttempt
  resolve_collision tx previous attempt signed e again =
      if not (is attempt_hash_conflict e)
      then fail (prefixed "persisting signed attempt: %w" e)
      else if unchanged_hash previous attempt.hash
      then fail (
          errorf "re-signing above the durable fee floor did not change hash %s: %w"
            (m.hash_hex attempt.hash ∷ e.text ∷ []) e.wraps)
      else do floor ← collision_floor tx attempt signed; again floor

  -- With the answer of the insert.
  unfoldable pub after_insert :
      Transaction
      → Option Hash
      → TransactionAttempt
      → SignedTx
      → (GasFee → Action TransactionAttempt)
      → Result (Unit {0})
      → Action TransactionAttempt
  unfolding resolve_collision
  after_insert tx previous attempt signed again (ok done) = pure attempt
  after_insert tx previous attempt signed again (err e) =
      resolve_collision tx previous attempt signed e again

  -- The rounds left, the fee floor, and the hash of the round before.
  unfoldable pub persist_round :
      ℕ
      → Transaction
      → List TransactionAttempt
      → Option GasFee
      → Option Hash
      → Action TransactionAttempt
  persist_round zero tx attempts floor previous = fail (
      errorf "persisting a unique signed attempt after %d collisions: %w"
        (decimal max_hash_collision_resigns ∷ sentinel_text attempt_hash_conflict ∷ [])
        (attempt_hash_conflict ∷ []))
  persist_round (suc rounds) tx attempts floor previous = do
    signed ← wrapping (prefixed "signing transaction attempt: %w") (sign_attempt tx attempts floor)
    time ← now m
    inserted ← try (write (λ q. insert_attempt m.hash_hex q (attempt_from tx signed time)))
    after_insert tx previous (attempt_from tx signed time) signed
        (λ next. persist_round rounds tx attempts (some next) (some signed.hash)) inserted

  unfoldable pub persist_unique_attempt :
      Transaction → List TransactionAttempt → Action TransactionAttempt
  unfolding persist_round
  persist_unique_attempt tx attempts =
      persist_round max_hash_collision_resigns tx attempts none none
