-- ===== src/Txmngr/Schedule/Bounds.antt =====
-- What a scheduling writes into a row: `scheduleNextCheckNotBefore` of evm/txmngr/txmngr.go.
use superform_go_utils.Prelude.{
  ℕ, ◌+◌, List, Option, none, some, ◌||◌, if◌then◌else◌, leb, length, is_some, ◌≡◌, refl, get_last?,
  ◌≤◌, arith,
}
use superform_go_utils.Txmngr.Types.{Time, Transaction, TransactionAttempt}
use superform_go_utils.Txmngr.Message.{transaction_message_tail}
use superform_go_utils.Txmngr.Message.Bounds.{message_tail-bounded}
use superform_go_utils.Txmngr.Manager.{
  Manager, block_time, max_fee_replacements, exhausted_poll_interval,
}
use superform_go_utils.Txmngr.Schedule.{rescheduled, next_check, not_before}

next_check-upper :
    (m : Manager) (tx : Transaction) (last : Option TransactionAttempt) (count : ℕ) (time : Time)
    → next_check m tx last count time
      ≤ time
        + (if is_some tx.nonce_consumed_at || leb max_fee_replacements count
            then exhausted_poll_interval
            else block_time m tx.chain_id)
unfolding next_check
next_check-upper m tx none count time = ground arith
next_check-upper m tx (some latest) count time = ground arith

-- A rescheduled row is never due before the caller's bound, has a message of at most 512 bytes, and
-- names no other nonce than before. It is due by the bound or a time after now, whichever is later:
-- the slow poll interval once the fee replacements are used up or the nonce is consumed, and else the
-- block time.
pub rescheduled-due :
    (m : Manager) (tx : Transaction) (attempts : List TransactionAttempt) (bound time : Time)
    → (bound ≤ (rescheduled m tx attempts bound time).next_action_at)
      × ((rescheduled m tx attempts bound time).next_action_at
          ≤ not_before bound (
              time
              + (if is_some tx.nonce_consumed_at || leb max_fee_replacements (length attempts)
                  then exhausted_poll_interval
                  else block_time m tx.chain_id)))
      × (length (rescheduled m tx attempts bound time).msg ≤ 512)
      × ((rescheduled m tx attempts bound time).assigned_nonce ≡ tx.assigned_nonce)
unfolding rescheduled transaction_message_tail
rescheduled-due m tx attempts bound time = (
  ground arith,
  ground (arith, next_check-upper m tx (get_last? attempts) (length attempts) time),
  message_tail-bounded tx.msg 512,
  refl,
)
