-- ===== src/Txmngr/Schedule.antt =====
-- When a row is looked at again: `scheduleNextCheck` and its kin in evm/txmngr/txmngr.go.
pub mod Bounds
use superform_go_utils.Prelude.{
  ℕ, ◌+◌, List, [], ◌∷◌, Option, none, some, if◌then◌else◌, ltb, leb, length, get_last?, is_some,
  ◌||◌,
}
use superform_go_utils.Txmngr.Types.{Time, Transaction, TransactionAttempt, TxStatus, confirming}
use superform_go_utils.Txmngr.Errors.{Failure, errorf}
use superform_go_utils.Txmngr.Message.{transaction_message_tail}
use superform_go_utils.Txmngr.Mem.{update_if_active}
use superform_go_utils.Txmngr.Action.{Action, ◌>>=◌, write, wrapping}
use superform_go_utils.Txmngr.Manager.{
  Manager, now, block_time, next_bump_at, max_fee_replacements, exhausted_poll_interval,
}

abbrev pub earlier : Time → Time → Time
earlier candidate next = if ltb candidate next then candidate else next

abbrev pub not_before : Time → Time → Time
not_before bound next = if ltb next bound then bound else next

module _ (m : Manager) where
  -- The time of the next check before the caller's bound: with no attempt, the next block; with
  -- one, the fee bump if that is sooner; the slow poll once the nonce is consumed or the fee
  -- replacements are used up.
  unfoldable pub next_check : Transaction → Option TransactionAttempt → ℕ → Time → Time
  next_check tx none count time =
      if is_some tx.nonce_consumed_at || leb max_fee_replacements count
      then time + exhausted_poll_interval
      else time + block_time m tx.chain_id
  next_check tx (some latest) count time =
      if is_some tx.nonce_consumed_at || leb max_fee_replacements count
      then time + exhausted_poll_interval
      else earlier (next_bump_at m tx.chain_id latest) (time + block_time m tx.chain_id)

  abbrev pub confirming_if_signed : List TransactionAttempt → TxStatus → TxStatus
  confirming_if_signed [] status = status
  confirming_if_signed (a ∷ as') status = confirming

  -- The row that a scheduling writes at a time.
  unfoldable pub rescheduled : Transaction → List TransactionAttempt → Time → Time → Transaction
  unfolding next_check
  rescheduled tx attempts bound time = record tx {
    status = confirming_if_signed attempts tx.status;
    msg = transaction_message_tail tx.msg;
    next_action_at = not_before bound (next_check tx (get_last? attempts) (length attempts) time);
    updated_at = time;
  }

  schedule_failure : Transaction → Failure → Failure
  schedule_failure tx e =
      errorf "scheduling transaction %s confirmation: %w" (tx.id ∷ e.text ∷ []) e.wraps

  unfoldable pub schedule_next_check_not_before :
      Transaction → List TransactionAttempt → Time → Action (Unit {0})
  unfolding schedule_failure
  schedule_next_check_not_before tx attempts bound = do
    time ← now m
    wrapping (schedule_failure tx)
        (write (λ q. update_if_active q (rescheduled tx attempts bound time)))

  unfoldable pub schedule_next_check : Transaction → List TransactionAttempt → Action (Unit {0})
  schedule_next_check tx attempts = schedule_next_check_not_before tx attempts 0

  unfoldable pub schedule_retry_after_block :
      Transaction → List TransactionAttempt → Action (Unit {0})
  schedule_retry_after_block tx attempts = do
    time ← now m
    schedule_next_check_not_before tx attempts (time + block_time m tx.chain_id)
