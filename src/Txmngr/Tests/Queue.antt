-- ===== src/Txmngr/Tests/Queue.antt =====
-- The guarantees of the queue and of the row transitions (evm/txmngr) at concrete inputs.
use superform_go_utils.Prelude.{
  ◌+◌, [], ◌∷◌, none, some, text_eq, nat_eq, true, false, ◌≡◌, ◌≤◌, refl, lookup, codes, List,
  filterb, leb, arith, ◌&&◌, ◌||◌, if◌then◌else◌, text_beq, length, decimal,
}
use superform_go_utils.Prelude.Int.{pos}
use superform_go_utils.Txmngr.Types.{Transaction, TransactionAttempt, is_completed}
use superform_go_utils.Txmngr.Errors.{RpcError, sentinel, stale_transaction}
use superform_go_utils.Txmngr.Broadcast.{is_permanent_transaction_rejection_error}
use superform_go_utils.Txmngr.Mem.{
  Store, stored, insert_or_get, insert_attempt, update_notification, try_lock_lane, find_operation,
}
use superform_go_utils.Txmngr.Mem.Operations.{insert_or_get-replays}
use superform_go_utils.Txmngr.Mem.Ownership.{insert_attempt-owned, try_lock_lane-excludes}
use superform_go_utils.Txmngr.Mem.Acknowledgement.{update_notification-once}
use superform_go_utils.Txmngr.Mem.Query.{
  Query, select, notification_ready, new_query, filter_by_chain_ids, limit_to,
}
use superform_go_utils.Txmngr.Mem.Selects.{select_rows, kept_by, rows_of, comparison, first_rows}
use superform_go_utils.Prelude.Ordered.{Ordered}
use mathlib.Core.List.{Permᴰ}
use superform_go_utils.Txmngr.Settle.{terminal_row}
use superform_go_utils.Txmngr.Settle.Outbox.{terminal_row-ready}
use superform_go_utils.Txmngr.Schedule.{rescheduled, not_before}
use superform_go_utils.Txmngr.Schedule.Bounds.{rescheduled-due}
use superform_go_utils.Txmngr.Send.{BroadcastPolicy, answered_row}
use superform_go_utils.Txmngr.Send.Release.{answered_row-evidence}
use superform_go_utils.Txmngr.Step.{process_transaction_step}
use superform_go_utils.Txmngr.Nonces.{HasNonce, Past}
use superform_go_utils.Txmngr.Nonces.Stepping.{process_transaction_step-keeps_nonce}
use superform_go_utils.Txmngr.Action.{State, ok, ◌>>=◌, wrapping, lift, ask}
use superform_go_utils.Txmngr.Manager.{
  block_time, has_client, now, recovered_attempt_rejection_grace,
}
use superform_go_utils.Txmngr.Submit.{
  Request, with_operation_key, send_tx_async, apply_options, store_row, queued_row,
}
use superform_go_utils.Txmngr.Submit.Once.{send_tx_async-once}
use superform_go_utils.Txmngr.Sample.{
  sample_manager, sample_store, sample_state, blank_row, done_row, sample_rows,
}

abbrev keyed_row : Transaction
keyed_row = record blank_row {
  id = codes "c";
  operation_key = some (codes "mint");
  payload_hash = some (codes "digest");
}

abbrev keyed_retry : Transaction
keyed_retry = record keyed_row { id = codes "d" }

insert_or_get-replays_example :
    insert_or_get (insert_or_get sample_store keyed_row).1 keyed_retry
    ≡ (stored keyed_row, (insert_or_get sample_store keyed_row).1)
unfolding insert_or_get find_operation
insert_or_get-replays_example =
    insert_or_get-replays sample_store keyed_row keyed_retry keyed_row (codes "mint")
      (codes "digest") refl refl refl refl refl

-- The queue with the keyed row.
abbrev keyed_store : Store
keyed_store = record sample_store { txs = (codes "c", keyed_row) ∷ sample_rows }

abbrev sample_attempt : TransactionAttempt
sample_attempt = record {
  hash = 5115;
  transaction_id = codes "a";
  nonce = 5;
  tx = none;
  created_at = 3;
}

insert_attempt-owned_example :
    insert_attempt (λ h. []) (insert_attempt (λ h. []) sample_store sample_attempt).1 sample_attempt
    ≡ (none, (insert_attempt (λ h. []) sample_store sample_attempt).1)
unfolding insert_attempt text_beq lookup
insert_attempt-owned_example =
    insert_attempt-owned (λ h. []) sample_store sample_attempt sample_attempt refl refl

abbrev delivered_row : Transaction
delivered_row = record done_row { notified_at = some 9 }

update_notification-once_example :
    update_notification (update_notification sample_store delivered_row).1 delivered_row
    ≡ (some (sentinel stale_transaction), (update_notification sample_store delivered_row).1)
unfolding update_notification lookup text_beq is_completed
update_notification-once_example =
    update_notification-once sample_store delivered_row delivered_row 9 refl refl refl

try_lock_lane-excludes_example :
    try_lock_lane (try_lock_lane sample_store 7 10).1 7 10
    ≡ (none, (try_lock_lane sample_store 7 10).1)
try_lock_lane-excludes_example = try_lock_lane-excludes sample_store 7 10

abbrev sample_query : Query
sample_query = limit_to 1 (filter_by_chain_ids (10 ∷ []) new_query)

select_rows_example :
    (rows : List Transaction) × Permᴰ rows
      (filterb (kept_by sample_query.filters) (rows_of sample_rows))
    × Ordered (comparison sample_query.order_by) rows
    × (select sample_query sample_rows ≡ first_rows sample_query.limit rows)
select_rows_example = select_rows sample_query sample_rows

abbrev reverted : RpcError
reverted = record {
  message = codes "execution reverted";
  code = some (pos 3);
  response = [];
  not_found = false;
  canceled = false;
  deadline_exceeded = false;
  http_status = none;
  url_op = none;
  net_timeout = false;
  type_name = [];
}

terminal_row-ready_example : notification_ready 30 (terminal_row done_row 20) ≡ true
unfolding is_completed
terminal_row-ready_example = terminal_row-ready done_row 20 30 refl refl

rescheduled-due_example :
    (50 ≤ (rescheduled sample_manager blank_row (sample_attempt ∷ []) 50 20).next_action_at)
    × ((rescheduled sample_manager blank_row (sample_attempt ∷ []) 50 20).next_action_at
        ≤ not_before 50 (20 + block_time sample_manager 10))
    × (length (rescheduled sample_manager blank_row (sample_attempt ∷ []) 50 20).msg ≤ 512)
    × ((rescheduled sample_manager blank_row (sample_attempt ∷ []) 50 20).assigned_nonce ≡ none)
rescheduled-due_example = rescheduled-due sample_manager blank_row (sample_attempt ∷ []) 50 20

abbrev stale_row : Transaction
stale_row = record blank_row { rejected_attempt_hash = some 77 }

abbrev first_pass : BroadcastPolicy
first_pass = record { first_attempt_this_pass = true; nonce_releasable = true }

-- A revert that the first pass may act on replaces the evidence of another attempt.
answered_row-evidence_example :
    (answered_row sample_manager stale_row sample_attempt reverted first_pass
      20).rejected_attempt_hash
    ≡ (if is_permanent_transaction_rejection_error reverted
          && ((true && true) || leb (3 + recovered_attempt_rejection_grace) 20)
        then some 5115
        else none)
answered_row-evidence_example =
    answered_row-evidence sample_manager stale_row sample_attempt reverted first_pass 20

abbrev assigned_row : Transaction
assigned_row = record blank_row { assigned_nonce = some 5 }

abbrev assigned_state : State
assigned_state = record sample_state {
  store = record sample_store { txs = (codes "a", assigned_row) ∷ [] };
  lane = record { next = 9; known = true };
}

-- The lane has given nonces up to 8.
process_transaction_step-keeps_nonce_example :
    HasNonce
      (codes "a")
      (process_transaction_step sample_manager assigned_row assigned_state).1.store
    × Past 5 (process_transaction_step sample_manager assigned_row assigned_state).1.lane
unfolding lookup text_beq
process_transaction_step-keeps_nonce_example =
    process_transaction_step-keeps_nonce sample_manager assigned_row 5 assigned_state refl
      (assigned_row, 5, refl, refl) (refl, ground arith)

abbrev sample_request : Request
sample_request = record {
  chain_id = 10;
  address = 9;
  tx_data = [];
  gas_limit = 21000;
  value = none;
  authorizations = [];
  intent_id = none;
  options = with_operation_key (codes "mint") ∷ [];
}

send_tx_async-once_example :
    ((send_tx_async sample_manager sample_request
        (send_tx_async sample_manager sample_request sample_state).1).0
      ≡ ok (codes "id-0"))
    × ((send_tx_async sample_manager sample_request
          (send_tx_async sample_manager sample_request sample_state).1).1.store
        ≡ (send_tx_async sample_manager sample_request sample_state).1.store)
unfolding send_tx_async apply_options with_operation_key has_client ◌>>=◌ wrapping lift ask now
    store_row insert_or_get queued_row find_operation decimal
send_tx_async-once_example =
    send_tx_async-once sample_manager sample_request sample_state (codes "mint") (codes "id-0") refl
      refl
