-- ===== src/Txmngr/Settle.antt =====
-- Terminal transitions: `finalizeTransaction`, `abandonTransaction` and `persistTerminal` of
-- evm/txmngr/txmngr.go.
pub mod Outbox
use superform_go_utils.Prelude.{
  [], ◌∷◌, Option, none, some, Text, if◌then◌else◌, ◌==◌, nat_eq, codes,
}
use superform_go_utils.Txmngr.Types.{
  Time, SignedTx, Receipt, Transaction, TxStatus, succeed, errored, processing, confirming, pending,
  failed, receipt_status_failed,
}
use superform_go_utils.Txmngr.Errors.{Failure, errorf}
use superform_go_utils.Txmngr.Message.{transaction_message_tail}
use superform_go_utils.Txmngr.Mem.{update_if_active}
use superform_go_utils.Txmngr.Mem.Query.{has_intent}
use superform_go_utils.Txmngr.Action.{Action, ◌>>=◌, ◌>>◌, write, wrapping, emit, result_observed}
use superform_go_utils.Txmngr.Manager.{Manager, now}

abbrev status_text : TxStatus → Text
status_text succeed = codes "succeed"
status_text errored = codes "errored"
status_text processing = codes "processing"
status_text confirming = codes "confirming"
status_text pending = codes "pending"
status_text failed = codes "failed"

-- The row that a terminal transition writes at a time: the notification outbox is armed where the
-- row has an intent, and acknowledged at once where it has none.
unfoldable pub terminal_row : Transaction → Time → Transaction
terminal_row tx time =
    let settled = record tx {
      msg = transaction_message_tail tx.msg;
      updated_at = time;
      next_action_at = time;
    } in
    if has_intent tx.intent_id
    then record settled {
      notified_at = none;
      notification_attempts = 0;
      next_notification_at = time;
      notification_error = [];
    }
    else record settled { notified_at = some time }

-- The row of `finalizeTransaction` before it is persisted.
unfoldable pub finalized : Transaction → Option SignedTx → Receipt → Transaction
finalized tx winner receipt = record tx {
  tx = winner;
  receipt = some receipt;
  msg = [];
  rejected_attempt_hash = none;
  status = if receipt.status == receipt_status_failed then failed else succeed;
}

unfoldable pub abandoned : Transaction → Text → Transaction
abandoned tx reason = record tx { status = errored; msg = reason; rejected_attempt_hash = none }

terminal_failure : Transaction → Failure → Failure
terminal_failure tx e =
    errorf "persisting terminal transaction %s: %w" (tx.id ∷ e.text ∷ []) e.wraps

module _ (m : Manager) where
  unfoldable pub persist_terminal : Transaction → Action (Unit {0})
  unfolding terminal_failure
  persist_terminal tx = do
    time ← now m
    wrapping (terminal_failure tx) (write (λ q. update_if_active q (terminal_row tx time)))
    emit (result_observed tx.chain_id (status_text tx.status))

  unfoldable pub finalize_transaction : Transaction → Option SignedTx → Receipt → Action (Unit {0})
  finalize_transaction tx winner receipt = persist_terminal (finalized tx winner receipt)

  unfoldable pub abandon_transaction : Transaction → Text → Action (Unit {0})
  abandon_transaction tx reason = persist_terminal (abandoned tx reason)
