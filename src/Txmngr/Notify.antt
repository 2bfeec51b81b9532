-- ===== src/Txmngr/Notify.antt =====
-- Status notifications: `deliverStatusNotifications`, `deliverStatusNotification`,
-- `callStatusCallback` and `notificationBackoff` of evm/txmngr/txmngr.go. The workers are run one
-- after the other.
pub mod Backoff
use superform_go_utils.Prelude.{
  ℕ, zero, suc, ◌+◌, ◌*◌, ◌^◌, ◌%◌, List, [], ◌∷◌, Option, none, some, Text, Bool, true, false, min,
  if◌then◌else◌, sprintf, codes,
}
use superform_go_utils.Txmngr.Types.{Time, Transaction}
use superform_go_utils.Txmngr.Errors.{Failure, errorf, plain}
use superform_go_utils.Txmngr.Mem.{update_notification}
use superform_go_utils.Txmngr.Mem.Query.{
  Query, new_query, filter_notification_ready_before, order_by_next_notification, limit_to, select,
}
use superform_go_utils.Txmngr.Action.{Action, State, ◌>>=◌, ◌>>◌, pure, ask, gets, write}
use superform_go_utils.Txmngr.Manager.{
  Manager, Outcome, returned, panicked, now, second, notification_work_batch,
}
use superform_go_utils.Txmngr.Batch.{ignore_error}

abbrev pub notification_min_backoff : ℕ
notification_min_backoff = second

abbrev pub notification_max_backoff : ℕ
notification_max_backoff = 60 * second

unfoldable pub notification_backoff : ℕ → ℕ
notification_backoff attempt =
    min (notification_min_backoff * 2 ^ min attempt 6) notification_max_backoff

-- The error of a callback: its own, or the panic that was recovered.
unfoldable pub callback_error : Outcome → Option Failure
callback_error (returned e) = e
callback_error (panicked what) =
    some (errorf "transaction status callback panicked: %v" (what ∷ []) [])

-- The row after a delivery; the attempt counter is a uint32.
unfoldable pub notified_row : Transaction → Option Failure → Time → Transaction
notified_row tx none time = record tx {
  notified_at = some time;
  notification_error = [];
  updated_at = time;
}
notified_row tx (some e) time =
    let count = (tx.notification_attempts + 1) % 2 ^ 32 in
    record tx {
      notification_attempts = count;
      notification_error = e.text;
      next_notification_at = time + notification_backoff count;
      updated_at = time;
    }

unfoldable pub notification_query : Time → Query
notification_query time =
    order_by_next_notification
      (limit_to notification_work_batch (filter_notification_ready_before time new_query))

module _ (m : Manager) where
  -- A manager with no callback starts no notification loop; the call would panic and be recovered.
  unfoldable pub call_status_callback : Transaction → Action (Option Failure)
  call_status_callback tx = elim m.on_status_change [
    | none ↦ pure (
        callback_error
          (panicked (codes "runtime error: invalid memory address or nil pointer dereference")))
    | some callback ↦ do outcome ← ask (λ t. callback t tx); pure (callback_error outcome)
  ]

  unfoldable pub deliver_status_notification : Transaction → Action (Unit {0})
  deliver_status_notification tx = do
    outcome ← call_status_callback tx
    stopped ← ask m.context_done
    if stopped then pure tt else do
      time ← now m
      ignore_error (write (λ q. update_notification q (notified_row tx outcome time)))

  unfoldable pub deliver_rows : List Transaction → Action (Unit {0})
  deliver_rows [] = pure tt
  deliver_rows (tx ∷ rest) = do
    stopped ← ask m.context_done
    if stopped then pure tt else do deliver_status_notification tx; deliver_rows rest

  unfoldable pub deliver_status_notifications : Action (Unit {0})
  unfolding deliver_rows
  deliver_status_notifications = do
    time ← now m
    rows ← gets (λ s. select (notification_query time) s.store.txs)
    deliver_rows rows
