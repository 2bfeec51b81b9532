-- ===== src/Txmngr/Settle/Outbox.antt =====
-- The notification outbox of a settled row: `persistTerminal` in evm/txmngr/txmngr.go against the
-- query and the write of the notification worker.
use superform_go_utils.Prelude.{true, false, ◌≡◌, text_eq, arith, leb, ltb, Bool-cases, inl, inr}
use superform_go_utils.Txmngr.Types.{Time, Transaction, is_completed}
use superform_go_utils.Txmngr.Mem.Query.{notification_ready, has_intent}
use superform_go_utils.Txmngr.Settle.{terminal_row}

-- Whatever settles a row, if it has an intent it is due for notification from that moment on; if it
-- has none, it never is.
pub terminal_row-ready :
    (tx : Transaction) (time before : Time)
    → is_completed tx ≡ true
    → leb time before ≡ true
    → notification_ready before (terminal_row tx time) ≡ has_intent tx.intent_id
unfolding notification_ready terminal_row is_completed
terminal_row-ready tx time before done h =
    let due : ltb before time ≡ false = ground arith in
    elim (Bool-cases (has_intent tx.intent_id)) [
      | inl e ↦ rw (e, due) (ground arith)
      | inr e ↦ rw e (ground arith)
    ]
