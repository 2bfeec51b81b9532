-- ===== src/Txmngr/Attempts.antt =====
-- The durable attempts of a transaction: `validatePersistedAttempts`, `highestAttemptFee`,
-- `findKnownReceipt` and `findKnownTransaction` of evm/txmngr/txmngr.go.
pub mod Validated
use superform_go_utils.Prelude.{
  ℕ, List, [], ◌∷◌, Option, none, some, Text, Bool, true, not, ◌&&◌, ◌||◌, sprintf, decimal,
  if◌then◌else◌, ◌==◌, nat_eq, String, get_last?,
}
use superform_go_utils.Txmngr.Types.{
  Address, Hash, SignedTx, Receipt, TransactionAttempt, zero_address, receipt_status_failed,
  receipt_status_successful,
}
use superform_go_utils.Txmngr.Errors.{Failure, RpcError, errorf, plain}
use superform_go_utils.Txmngr.Fees.{GasFee, highest_gas_fee}
use superform_go_utils.Txmngr.Action.{Action, Result, ok, err, ◌>>=◌, pure, fail, ask}
use superform_go_utils.Txmngr.Manager.{Manager}
use superform_go_utils.Txmngr.Summary.{redacted_rpc_error}

-- `chain_id` is nil or another chain's.
abbrev other_chain : Option ℕ → ℕ → Bool
other_chain none chain_id = true
other_chain (some c) chain_id = not (c == chain_id)

abbrev pub fee_of : SignedTx → GasFee
fee_of tx = record {
  gas_price = tx.gas_price;
  gas_tip_cap = tx.gas_tip_cap;
  gas_fee_cap = tx.gas_fee_cap;
}

-- `attempts[len(attempts)-1]`; on no attempts the source would panic.
unfoldable pub newest : List TransactionAttempt → Action TransactionAttempt
newest attempts = elim (get_last? attempts) [
  | none ↦ fail (plain "index out of range")
  | some latest ↦ pure latest
]

module _ (hash_hex : Hash → Text) (address_hex : Address → Text) where
  -- One row of the loop of `validatePersistedAttempts`, past the test for a nil transaction:
  -- the sender so far goes in, and the sender after this row comes out.
  unfoldable pub check_signed : ℕ → Address → TransactionAttempt → SignedTx → Result Address
  check_signed nonce sender attempt tx =
      if not (tx.hash == attempt.hash)
      then err (
          errorf "persisted attempt hash %s differs from raw transaction hash %s"
            (hash_hex attempt.hash ∷ hash_hex tx.hash ∷ []) [])
      else if not (tx.nonce == attempt.nonce)
      then err (
          errorf "persisted attempt %s nonce %d differs from raw transaction nonce %d"
            (hash_hex attempt.hash ∷ decimal attempt.nonce ∷ decimal tx.nonce ∷ []) [])
      else if not (attempt.nonce == nonce)
      then err (
          errorf "signed attempts contain different nonces: %d and %d"
            (decimal nonce ∷ decimal attempt.nonce ∷ []) [])
      else elim tx.signer [
        | none ↦ err (
            errorf "recovering signer for persisted attempt %s: %w"
              (hash_hex attempt.hash ∷ tx.signer_error ∷ []) [])
        | some derived ↦
            if sender == zero_address
            then ok derived
            else if not (derived == sender)
            then err (
                errorf "persisted attempt %s signer %s differs from attempt sender %s"
                  (hash_hex attempt.hash ∷ address_hex derived ∷ address_hex sender ∷ []) [])
            else ok sender
      ]

  unfoldable pub check_attempt : ℕ → Address → TransactionAttempt → Result Address
  unfolding check_signed
  check_attempt nonce sender attempt = elim attempt.tx [
    | none ↦
        err
          (errorf "persisted attempt %s has no signed transaction" (hash_hex attempt.hash ∷ []) [])
    | some tx ↦ check_signed nonce sender attempt tx
  ]

  abbrev or_error : {A B : Type 0} → Result A → (A → Result B) → Result B
  or_error (ok a) f = f a
  or_error (err e) f = err e

  unfoldable pub check_attempts : ℕ → Address → List TransactionAttempt → Result Address
  check_attempts nonce sender [] = ok sender
  check_attempts nonce sender (a ∷ rest) =
      or_error (check_attempt nonce sender a) (λ next. check_attempts nonce next rest)

  abbrev paired : {A B : Type 0} → B → Result A → Result (A × B)
  paired b (ok a) = ok (a, b)
  paired b (err e) = err e

  unfoldable pub validate_persisted_attempts : List TransactionAttempt → Result (Address × ℕ)
  unfolding check_attempts
  validate_persisted_attempts [] = err (plain "no persisted attempts")
  validate_persisted_attempts (a ∷ rest) =
      paired a.nonce (check_attempts a.nonce zero_address (a ∷ rest))

  -- One attempt of `highestAttemptFee` whose transaction is of this sender.
  unfoldable pub own_fee : Option GasFee → TransactionAttempt → SignedTx → Result (Option GasFee)
  own_fee highest attempt tx =
      if not (tx.hash == attempt.hash)
      then err (
          errorf "attempt hash %s differs from raw transaction hash %s"
            (hash_hex attempt.hash ∷ hash_hex tx.hash ∷ []) [])
      else if not (tx.nonce == attempt.nonce)
      then err (
          errorf "attempt %s nonce %d differs from raw transaction nonce %d"
            (hash_hex attempt.hash ∷ decimal attempt.nonce ∷ decimal tx.nonce ∷ []) [])
      else ok (highest_gas_fee highest (some (fee_of tx)))

  unfoldable pub raise_fee :
      Address → ℕ → ℕ → Option GasFee → TransactionAttempt → SignedTx → Result (Option GasFee)
  unfolding own_fee
  raise_fee sender chain_id tx_type highest attempt tx =
      if other_chain tx.chain_id chain_id || not (tx.tx_type == tx_type)
      then ok highest
      else elim tx.signer [
        | none ↦ err (
            errorf "recovering signer for attempt %s: %w"
              (hash_hex attempt.hash ∷ tx.signer_error ∷ []) [])
        | some signer ↦ if not (signer == sender) then ok highest else own_fee highest attempt tx
      ]

  unfoldable pub highest_fee_from :
      Address → ℕ → ℕ → Option GasFee → List TransactionAttempt → Result (Option GasFee)
  highest_fee_from sender chain_id tx_type highest [] = ok highest
  highest_fee_from sender chain_id tx_type highest (a ∷ rest) =
      or_error
        (elim a.tx [
          | none ↦ err (errorf "attempt %s has no signed transaction" (hash_hex a.hash ∷ []) [])
          | some tx ↦ raise_fee sender chain_id tx_type highest a tx
        ])
        (λ next. highest_fee_from sender chain_id tx_type next rest)

  unfoldable pub highest_attempt_fee :
      List TransactionAttempt → Address → ℕ → ℕ → Result (Option GasFee)
  unfolding highest_fee_from raise_fee
  highest_attempt_fee attempts sender chain_id tx_type =
      highest_fee_from sender chain_id tx_type none attempts

-- What a lookup of one attempt says: the answer to return, or the last error so far.
pub data Found (A : Type 0) : Type 0 where
  found : A → Found A
  missing : Option Failure → Found A

module _ (m : Manager) where
  -- The error that a failed lookup leaves.
  unfoldable pub lookup_error :
      {A : Type 0} → String → TransactionAttempt → Option Failure → Option RpcError → Found A
  lookup_error operation attempt last none = missing last
  lookup_error operation attempt last (some e) =
      if e.not_found
      then missing last
      else missing
          (some (redacted_rpc_error m (sprintf operation (m.hash_hex attempt.hash ∷ [])) e))

  unfoldable pub judge_receipt :
      TransactionAttempt
      → Option Failure
      → Option Receipt × Option RpcError
      → Found (Receipt × Option SignedTx)
  unfolding lookup_error
  judge_receipt attempt last (some receipt, none) =
      if not (receipt.tx_hash == attempt.hash)
      then missing (
          some (
            errorf "receipt hash %s does not match requested attempt %s"
              (m.hash_hex receipt.tx_hash ∷ m.hash_hex attempt.hash ∷ []) []))
      else if not (receipt.status == receipt_status_failed)
          && not (receipt.status == receipt_status_successful)
      then missing (
          some (
            errorf "receipt %s has unsupported status %d"
              (m.hash_hex attempt.hash ∷ decimal receipt.status ∷ []) []))
      else found (receipt, attempt.tx)
  judge_receipt attempt last (none, none) = missing last
  judge_receipt attempt last (r, some e) =
      lookup_error "retrieving receipt %s" attempt last (some e)

  unfoldable pub judge_transaction :
      TransactionAttempt
      → Option Failure
      → Option SignedTx × Option RpcError
      → Found (Option SignedTx)
  unfolding lookup_error
  judge_transaction attempt last (some known, none) =
      if not (known.hash == attempt.hash)
      then missing (
          some (
            errorf "transaction hash %s does not match requested attempt %s"
              (m.hash_hex known.hash ∷ m.hash_hex attempt.hash ∷ []) []))
      else found attempt.tx
  judge_transaction attempt last (none, none) = missing last
  judge_transaction attempt last (r, some e) =
      lookup_error "retrieving transaction %s" attempt last (some e)

  -- The loops stop at the first attempt that answers, else they end with the last error.
  unfoldable pub search_receipts :
      ℕ → Option Failure → List TransactionAttempt → Action (Found (Receipt × Option SignedTx))
  search_receipts chain_id last [] = pure (missing last)
  search_receipts chain_id last (a ∷ rest) = do
    answer ← ask (λ t. m.transaction_receipt t chain_id a.hash)
    elim (judge_receipt a last answer) [
      | found r ↦ pure (found r)
      | missing e ↦ search_receipts chain_id e rest
    ]

  unfoldable pub find_known_receipt :
      ℕ → List TransactionAttempt → Action (Found (Receipt × Option SignedTx))
  unfolding search_receipts
  find_known_receipt chain_id attempts = search_receipts chain_id none attempts

  unfoldable pub search_transactions :
      ℕ → Option Failure → List TransactionAttempt → Action (Found (Option SignedTx))
  search_transactions chain_id last [] = pure (missing last)
  search_transactions chain_id last (a ∷ rest) = do
    answer ← ask (λ t. m.transaction_by_hash t chain_id a.hash)
    elim (judge_transaction a last answer) [
      | found r ↦ pure (found r)
      | missing e ↦ search_transactions chain_id e rest
    ]

  unfoldable pub find_known_transaction :
      ℕ → List TransactionAttempt → Action (Found (Option SignedTx))
  unfolding search_transactions
  find_known_transaction chain_id attempts = search_transactions chain_id none attempts
