-- ===== src/Txmngr/Step.antt =====
-- One pass over one row: `processTransactionStep`, `pollConsumedNonce` and
-- `createAndBroadcastAttempt` of evm/txmngr/txmngr.go. The method is cut into the parts below at
-- its early returns; each part ends in a call of the part that follows it in the source.
mod Assign
unfoldable pub use Assign.*
use superform_go_utils.Prelude.{
  ℕ, ◌+◌, ◌-◌, List, [], ◌∷◌, ◌++◌, Option, none, some, Text, Bool, true, false, not, ◌&&◌, ◌||◌,
  codes, ltb, sprintf, decimal, if◌then◌else◌, ◌==◌, nat_eq, String, get_last?, length, is_some,
}
use superform_go_utils.Txmngr.Types.{
  Address, Hash, Time, SignedTx, Receipt, Transaction, TransactionAttempt, confirming, processing,
  zero_address,
}
use superform_go_utils.Txmngr.Errors.{
  Failure, transaction_unprocessable, lane_awaiting_node_nonce, lane_state_changed,
  unsigned_transaction_expired, sentinel, sentinel_text, plain, errorf, is, prefixed,
}
use superform_go_utils.Txmngr.Lane.{observe, reserve, is_tip}
use superform_go_utils.Txmngr.Message.{append_reconciliation_error}
use superform_go_utils.Txmngr.Mem.{update_if_active, insert_attempt, select_attempts}
use superform_go_utils.Txmngr.Action.{
  Action, State, Result, ok, err, ◌>>=◌, ◌>>◌, pure, fail, ask, gets, write, wrapping, emit,
  update_lane, barrier_observed,
}
use superform_go_utils.Txmngr.Manager.{
  Manager, Reply, reply, refused, now, block_time, next_bump_at, has_client, max_fee_replacements,
  consumed_nonce_grace,
}
use superform_go_utils.Txmngr.Summary.{redacted_rpc_error}
use superform_go_utils.Txmngr.Schedule.{
  schedule_next_check, schedule_next_check_not_before, schedule_retry_after_block,
}
use superform_go_utils.Txmngr.Settle.{finalize_transaction, abandon_transaction}
use superform_go_utils.Txmngr.Attempts.{
  newest, Found, found, missing, find_known_receipt, validate_persisted_attempts,
}
use superform_go_utils.Txmngr.Sign.{persist_unique_attempt}
use superform_go_utils.Txmngr.Send.{broadcast_and_schedule, reconcile_rejected_submission}

module _ (m : Manager) where
  -- Whether the newest candidate is still inside its fee bump window.
  abbrev pub before_bump : Transaction → Option TransactionAttempt → Time → Bool
  before_bump tx none time = false
  before_bump tx (some latest) time = ltb time (next_bump_at m tx.chain_id latest)

  unfoldable pub bump_window : Transaction → List TransactionAttempt → Bool → Action (Unit {0})
  bump_window tx attempts resume =
      if is_empty m attempts || tx.broadcast_pending then admission m tx attempts resume else do
        time ← now m
        if before_bump tx (get_last? attempts) time
            then schedule_next_check m tx attempts
            else admission m tx attempts resume

  -- Past the test for a rejection: a consumed nonce is polled, unless a broadcast is to be resumed.
  unfoldable pub consumed_or_bump :
      Transaction → List TransactionAttempt → Bool → Option Time → Action (Unit {0})
  consumed_or_bump tx attempts resume none = bump_window tx attempts resume
  consumed_or_bump tx attempts resume (some consumed_at) =
      if resume
      then bump_window tx attempts resume
      else poll_consumed_nonce m tx consumed_at attempts

  -- Whether the recorded rejection is that of the newest attempt.
  abbrev pub matches_newest : Hash → Option TransactionAttempt → Bool
  matches_newest rejected none = false
  matches_newest rejected (some latest) = rejected == latest.hash

  unfoldable pub reconcile_or_retry :
      Transaction → List TransactionAttempt → Bool → Action (Unit {0})
  reconcile_or_retry tx attempts receipt_read_failed =
      if receipt_read_failed then schedule_retry_after_block m tx attempts else do
        time ← now m
        tip ← gets (λ s. tip_of s tx.assigned_nonce)
        reconcile_rejected_submission m tx attempts time tip

  unfoldable pub rejected_or_active :
      Transaction → List TransactionAttempt → Bool → Option Hash → Action (Unit {0})
  rejected_or_active tx attempts receipt_read_failed none =
      consumed_or_bump tx attempts (not (is_empty m attempts) && tx.broadcast_pending)
        tx.nonce_consumed_at
  rejected_or_active tx attempts receipt_read_failed (some rejected) =
      if not (is_some tx.assigned_nonce) || not (matches_newest rejected (get_last? attempts))
      then fail
          (unprocessable "persisted rejection does not match the latest assigned attempt: %w" [])
      else reconcile_or_retry tx attempts receipt_read_failed

  -- A rotated key signs and sends nothing for another sender's row.
  unfoldable pub own_sender : Transaction → List TransactionAttempt → Bool → Action (Unit {0})
  own_sender tx attempts receipt_read_failed =
      if not (tx.sender == m.sender)
      then fail (
          unprocessable "persisted sender %s differs from manager sender %s: %w"
            (m.address_hex tx.sender ∷ m.address_hex m.sender ∷ []))
      else rejected_or_active tx attempts receipt_read_failed tx.rejected_attempt_hash

  -- The stored nonce is set and is not the one of the signed attempts.
  abbrev pub other_nonce : Option ℕ → ℕ → Bool
  other_nonce none nonce = false
  other_nonce (some stored) nonce = not (stored == nonce)

  -- No attempt has a receipt: the parent row must agree with the attempts.
  unfoldable pub agree_with_attempts :
      Address
      → Option ℕ
      → Address
      → ℕ
      → Transaction
      → List TransactionAttempt
      → Bool
      → Action (Unit {0})
  agree_with_attempts stored_sender stored_nonce signer nonce tx attempts failed_read =
      if other_nonce stored_nonce nonce
      then fail (
          unprocessable "assigned nonce %d differs from signed attempt nonce %d: %w"
            (decimal (or_zero_nonce stored_nonce) ∷ decimal nonce ∷ []))
      else if not (stored_sender == zero_address) && not (stored_sender == signer)
      then fail (
          unprocessable "persisted sender %s differs from signed attempt sender %s: %w"
            (m.address_hex stored_sender ∷ m.address_hex signer ∷ []))
      else own_sender tx attempts failed_read

  unfoldable pub judge_known_receipt :
      Address
      → Option ℕ
      → Address
      → ℕ
      → Transaction
      → List TransactionAttempt
      → Found (Receipt × Option SignedTx)
      → Action (Unit {0})
  judge_known_receipt stored_sender stored_nonce signer nonce tx attempts
        (found (receipt, winner)) =
      finalize_transaction m tx winner receipt
  judge_known_receipt stored_sender stored_nonce signer nonce tx attempts (missing (some e)) =
      agree_with_attempts stored_sender stored_nonce signer nonce
        (record tx { msg = append_reconciliation_error tx.msg (some e.text) }) attempts true
  judge_known_receipt stored_sender stored_nonce signer nonce tx attempts (missing none) =
      agree_with_attempts stored_sender stored_nonce signer nonce tx attempts false

  -- The row holds no transaction, or another one than the newest attempt's.
  abbrev pub stale_tx : Option SignedTx → Option SignedTx → Bool
  stale_tx none latest = true
  stale_tx (some signed) none = true
  stale_tx (some signed) (some latest) = not (signed.hash == latest.hash)

  -- The row with the sender, nonce and candidate that its attempts prove.
  unfoldable pub adopted_row : Transaction → Address → ℕ → TransactionAttempt → Transaction
  adopted_row tx signer nonce latest =
      let adopted = record tx {
        sender = signer;
        assigned_nonce = some nonce;
        status = confirming;
      } in
      if stale_tx tx.tx latest.tx
      then record adopted { tx = latest.tx; broadcast_pending = true }
      else adopted

  abbrev pub observe_own : Address → ℕ → Action (Unit {0})
  observe_own signer nonce =
      if signer == m.sender then update_lane (λ l. observe l nonce) else pure tt

  unfoldable pub adopt_attempts :
      Transaction → List TransactionAttempt → Result (Address × ℕ) → Action (Unit {0})
  adopt_attempts tx attempts (err e) = fail (unprocessable "%w: %w" (e.text ∷ []))
  adopt_attempts tx attempts (ok (signer, nonce)) = do
    observe_own signer nonce
    latest ← newest attempts
    receipt ← find_known_receipt m tx.chain_id attempts
    judge_known_receipt tx.sender tx.assigned_nonce signer nonce
        (adopted_row tx signer nonce latest) attempts receipt

  abbrev pub defaulted_sender : Transaction → Transaction
  defaulted_sender tx = if tx.sender == zero_address then record tx { sender = m.sender } else tx

  unfoldable pub with_attempts : Transaction → List TransactionAttempt → Action (Unit {0})
  with_attempts tx attempts =
      if is_empty m attempts
      then own_sender (defaulted_sender tx) attempts false
      else adopt_attempts tx attempts
          (validate_persisted_attempts m.hash_hex m.address_hex attempts)

  abbrev pub legacy_attempt : Transaction → SignedTx → Time → TransactionAttempt
  legacy_attempt tx signed time = record {
    transaction_id = tx.id;
    hash = signed.hash;
    nonce = signed.nonce;
    tx = some signed;
    created_at = time;
  }

  abbrev pub legacy_time : Transaction → Action Time
  legacy_time tx = if tx.updated_at == 0 then now m else pure tx.updated_at

  abbrev pub legacy_checked : Result (Address × ℕ) → Action (Unit {0})
  legacy_checked (ok r) = pure tt
  legacy_checked (err e) =
      fail (unprocessable "validating legacy signed attempt: %w: %w" (e.text ∷ []))

  -- A row from before the attempts table: its raw transaction becomes its first attempt.
  unfoldable pub recover_legacy : Transaction → SignedTx → Action (Unit {0})
  recover_legacy tx signed = do
    time ← legacy_time tx
    legacy_checked
        (validate_persisted_attempts m.hash_hex m.address_hex (legacy_attempt tx signed time ∷ []))
    wrapping (prefixed "recovering legacy signed attempt: %w")
        (write (λ q. insert_attempt m.hash_hex q (legacy_attempt tx signed time)))
    with_attempts (record tx { broadcast_pending = true }) (legacy_attempt tx signed time ∷ [])

  unfoldable pub recover_or_go :
      Transaction → List TransactionAttempt → Option SignedTx → Action (Unit {0})
  recover_or_go tx [] (some signed) = recover_legacy tx signed
  recover_or_go tx [] none = with_attempts tx []
  recover_or_go tx (a ∷ rest) stored = with_attempts tx (a ∷ rest)

  unfoldable pub process_transaction_step : Transaction → Action (Unit {0})
  process_transaction_step tx =
      if not (has_client m tx.chain_id)
      then fail (unprocessable "no client configured for chain %d: %w" (decimal tx.chain_id ∷ []))
      else do attempts ← gets (λ s. select_attempts s.store tx.id); recover_or_go tx attempts tx.tx
