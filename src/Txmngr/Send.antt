-- ===== src/Txmngr/Send.antt =====
-- Sending a durable candidate and reading the node's answer: `broadcastAndSchedule`,
-- `handleBroadcastFailure` and `reconcileRejectedSubmission` of evm/txmngr/txmngr.go.
pub mod Release
use superform_go_utils.Prelude.{
  ℕ, ◌+◌, List, [], ◌∷◌, ◌++◌, Option, none, some, Text, Bool, true, false, not, ◌&&◌, ◌||◌, codes,
  ltb, if◌then◌else◌, ◌==◌, nat_eq,
}
use superform_go_utils.Txmngr.Types.{Hash, Time, SignedTx, Receipt, Transaction, TransactionAttempt}
use superform_go_utils.Txmngr.Errors.{
  Failure, RpcError, lane_state_changed, sentinel, plain, errorf,
}
use superform_go_utils.Txmngr.Broadcast.{
  BroadcastErrorDisposition, ambiguous, already_known, nonce_consumed, fee_rejected,
  transaction_rejected_retryable, transaction_rejected_permanent, classify_broadcast_error,
}
use superform_go_utils.Txmngr.Message.{append_reconciliation_error, broadcast_attempt_reason}
use superform_go_utils.Txmngr.Action.{
  Action, ◌>>=◌, ◌>>◌, pure, fail, ask, emit, record_send, barrier_observed,
}
use superform_go_utils.Txmngr.Manager.{
  Manager, Reply, reply, refused, now, block_time, recovered_attempt_rejection_grace,
}
use superform_go_utils.Txmngr.Summary.{rpc_error_summary}
use superform_go_utils.Txmngr.Schedule.{
  schedule_next_check, schedule_next_check_not_before, schedule_retry_after_block,
}
use superform_go_utils.Txmngr.Settle.{finalize_transaction, abandon_transaction}
use superform_go_utils.Txmngr.Attempts.{
  newest, Found, found, missing, find_known_receipt, find_known_transaction,
}

pub record BroadcastPolicy : Type 0 where
  pub first_attempt_this_pass : Bool
  pub nonce_releasable : Bool

abbrev pub rejection_not_tip : Text
rejection_not_tip = codes "rejection_not_tip"

abbrev pub rejection_node_behind : Text
rejection_node_behind = codes "rejection_node_behind"

abbrev pub is_rejected : BroadcastErrorDisposition → Bool
is_rejected transaction_rejected_permanent = true
is_rejected _ = false

-- The `switch` of `handleBroadcastFailure`: the row after an answer of the node, with the evidence
-- of a rejection cleared on every arm but the one that arms it.
unfoldable pub after_answer :
    BroadcastErrorDisposition → Bool → Hash → Text → Time → Transaction → Transaction
after_answer already_known may_reconcile hash reason time tx = record tx {
  rejected_attempt_hash = none;
  msg = [];
  broadcast_pending = false;
}
after_answer nonce_consumed may_reconcile hash reason time tx = record tx {
  rejected_attempt_hash = none;
  msg = reason;
  nonce_consumed_at = some time;
  broadcast_pending = false;
}
after_answer fee_rejected may_reconcile hash reason time tx = record tx {
  rejected_attempt_hash = none;
  msg = reason;
  broadcast_pending = false;
}
after_answer transaction_rejected_permanent may_reconcile hash reason time tx = record tx {
  rejected_attempt_hash = if may_reconcile then some hash else none;
  msg = reason;
  broadcast_pending = not may_reconcile;
}
after_answer transaction_rejected_retryable may_reconcile hash reason time tx = record tx {
  rejected_attempt_hash = none;
  msg = reason;
  broadcast_pending = true;
}
after_answer ambiguous may_reconcile hash reason time tx = record tx {
  rejected_attempt_hash = none;
  msg = codes "ambiguous " ++ reason;
  broadcast_pending = true;
}

-- A rejection may be acted on at once only by the pass that signed the first attempt at the lane's
-- tip; otherwise only past the recovery grace.
unfoldable pub may_act : BroadcastPolicy → Time → Time → Bool
may_act policy time reconcile_after =
    (policy.first_attempt_this_pass && policy.nonce_releasable) || not (ltb time reconcile_after)

module _ (m : Manager) where
  -- `tx.Msg = appendReconciliationError(tx.Msg, err)`
  abbrev pub noting : Failure → Transaction → Transaction
  noting e tx = record tx { msg = append_reconciliation_error tx.msg (some e.text) }

  abbrev pub known_row : SignedTx → Transaction → Transaction
  known_row known tx = record tx {
    tx = some known;
    msg = [];
    broadcast_pending = false;
    rejected_attempt_hash = none;
  }

  abbrev pub consumed_row : Time → Transaction → Transaction
  consumed_row time tx = record tx {
    nonce_consumed_at = some time;
    broadcast_pending = false;
    rejected_attempt_hash = none;
  }

  abbrev pub pending_nonce_failure : RpcError → Failure
  pending_nonce_failure e = errorf "pending nonce: %s" (rpc_error_summary m e ∷ []) []

  unfoldable pub release_row : Transaction → Action (Unit {0})
  release_row tx = do
    abandon_transaction m (record tx { assigned_nonce = none; broadcast_pending = false }) tx.msg
    fail (sentinel lane_state_changed)

  -- The `switch` on the node's pending nonce.
  unfoldable pub compare_pending :
      Transaction
      → List TransactionAttempt
      → TransactionAttempt
      → Time
      → Bool
      → ℕ
      → Action (Unit {0})
  compare_pending tx attempts latest time can_release pending_nonce =
      if pending_nonce == latest.nonce
      then (if not can_release
          then (do
            emit (barrier_observed tx.chain_id rejection_not_tip)
            schedule_retry_after_block m tx attempts)
          else release_row tx)
      else if ltb latest.nonce pending_nonce
      then schedule_next_check m (consumed_row time tx) attempts
      else do
        emit (barrier_observed tx.chain_id rejection_node_behind)
        schedule_retry_after_block m tx attempts

  abbrev pub judge_pending :
      Transaction
      → List TransactionAttempt
      → TransactionAttempt
      → Time
      → Bool
      → Reply ℕ
      → Action (Unit {0})
  judge_pending tx attempts latest time can_release (reply pending_nonce) =
      compare_pending tx attempts latest time can_release pending_nonce
  judge_pending tx attempts latest time can_release (refused e) =
      schedule_retry_after_block m (noting (pending_nonce_failure e) tx) attempts

  unfoldable pub check_pending :
      Transaction → List TransactionAttempt → TransactionAttempt → Time → Bool → Action (Unit {0})
  check_pending tx attempts latest time can_release = do
    answer ← ask (λ t. m.pending_nonce_at t tx.chain_id m.sender)
    judge_pending tx attempts latest time can_release answer

  -- With the answer of the search for a known transaction; a nil result counts as none.
  unfoldable pub judge_known :
      Transaction
      → List TransactionAttempt
      → TransactionAttempt
      → Time
      → Bool
      → Found (Option SignedTx)
      → Action (Unit {0})
  judge_known tx attempts latest time can_release (missing (some e)) =
      schedule_retry_after_block m (noting e tx) attempts
  judge_known tx attempts latest time can_release (found (some known)) =
      schedule_next_check m (known_row known tx) attempts
  judge_known tx attempts latest time can_release (found none) =
      check_pending tx attempts latest time can_release
  judge_known tx attempts latest time can_release (missing none) =
      check_pending tx attempts latest time can_release

  unfoldable pub reconcile_rejected_submission :
      Transaction → List TransactionAttempt → Time → Bool → Action (Unit {0})
  reconcile_rejected_submission tx attempts time can_release = do
    latest ← newest attempts
    known ← find_known_transaction m tx.chain_id attempts
    judge_known tx attempts latest time can_release known

  -- The end of `handleBroadcastFailure`, with the answer of the search for a receipt.
  unfoldable pub judge_failure :
      Transaction
      → List TransactionAttempt
      → Time
      → Time
      → Bool
      → Bool
      → Bool
      → Found (Receipt × Option SignedTx)
      → Action (Unit {0})
  judge_failure tx attempts time reconcile_after rejected may_reconcile releasable
        (found (receipt, winner)) =
      finalize_transaction m tx winner receipt
  judge_failure tx attempts time reconcile_after rejected may_reconcile releasable
        (missing (some e)) =
      schedule_next_check_not_before m (noting e tx) attempts (
        if rejected
        then (if may_reconcile then time + block_time m tx.chain_id else reconcile_after)
        else 0)
  judge_failure tx attempts time reconcile_after rejected may_reconcile releasable (missing none) =
      if rejected
      then (if may_reconcile
          then reconcile_rejected_submission tx attempts time releasable
          else schedule_next_check_not_before m tx attempts reconcile_after)
      else schedule_next_check m tx attempts

  abbrev pub persist_evidence :
      Transaction → List TransactionAttempt → Option Hash → Action (Unit {0})
  persist_evidence tx attempts none = pure tt
  persist_evidence tx attempts (some hash) = schedule_next_check m tx attempts

  -- The row that the answer of the node leaves.
  unfoldable pub answered_row :
      Transaction → TransactionAttempt → RpcError → BroadcastPolicy → Time → Transaction
  answered_row tx latest e policy time =
      after_answer (classify_broadcast_error e)
        (may_act policy time (latest.created_at + recovered_attempt_rejection_grace)) latest.hash
        (broadcast_attempt_reason (m.hash_hex latest.hash) (rpc_error_summary m e)) time tx

  unfoldable pub handle_broadcast_failure :
      Transaction → List TransactionAttempt → RpcError → BroadcastPolicy → Action (Unit {0})
  handle_broadcast_failure tx attempts e policy = do
    latest ← newest attempts
    time ← now m
    let row = answered_row tx latest e policy time
    persist_evidence row attempts row.rejected_attempt_hash
    receipt ← find_known_receipt m tx.chain_id attempts
    judge_failure row attempts time (latest.created_at + recovered_attempt_rejection_grace)
        (is_rejected (classify_broadcast_error e))
        (may_act policy time (latest.created_at + recovered_attempt_rejection_grace))
        policy.nonce_releasable receipt

  -- Handing the newest candidate to the node; on a nil transaction the source would panic.
  unfoldable pub send_candidate : ℕ → Option SignedTx → Action (Option RpcError)
  send_candidate chain_id none = fail (plain "invalid memory address or nil pointer dereference")
  send_candidate chain_id (some signed) = do
    record_send chain_id signed
    ask (λ t. m.send_transaction t chain_id signed)

  abbrev pub accepted_row : Transaction → Transaction
  accepted_row tx = record tx { msg = []; broadcast_pending = false; rejected_attempt_hash = none }

  abbrev pub judge_send :
      Transaction → List TransactionAttempt → BroadcastPolicy → Option RpcError → Action (Unit {0})
  judge_send tx attempts policy (some e) = handle_broadcast_failure tx attempts e policy
  judge_send tx attempts policy none = schedule_next_check m (accepted_row tx) attempts

  unfoldable pub broadcast_and_schedule :
      Transaction → List TransactionAttempt → BroadcastPolicy → Action (Unit {0})
  broadcast_and_schedule tx attempts policy = do
    latest ← newest attempts
    answer ← send_candidate tx.chain_id latest.tx
    judge_send tx attempts policy answer
