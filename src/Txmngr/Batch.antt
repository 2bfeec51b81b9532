-- ===== src/Txmngr/Batch.antt =====
-- One pass over a lane: `processLaneBatch`, `rescheduleTransaction`, `nextWorkChainIDs`, `processTxs`
-- and `observeTransactionMetrics` of evm/txmngr/txmngr.go. The workers of `processTxs` are run one
-- after the other.
pub mod Lanes
pub mod Rounds
use superform_go_utils.Prelude.{
  ℕ, zero, suc, ◌+◌, ◌%◌, List, [], ◌∷◌, Option, none, some, Bool, true, false, ◌||◌, if◌then◌else◌,
  ◌==◌, nat_eq, is_some, length, min, get_elem?, compare, Assoc, lookup, remove,
}
use superform_go_utils.Prelude.Sort.{sort_stable}
use superform_go_utils.Txmngr.Types.{Time, Transaction, confirming, is_completed, active_statuses}
use superform_go_utils.Txmngr.Errors.{
  Failure, stale_transaction, lane_awaiting_node_nonce, lane_state_changed,
  transaction_unprocessable, is,
}
use superform_go_utils.Txmngr.Lane.{NonceLane, u64}
use superform_go_utils.Txmngr.Message.{transaction_message_tail}
use superform_go_utils.Txmngr.Mem.{
  Store, LaneLock, update_if_active, count_by_chain, max_assigned_nonce, try_lock_lane, unlock,
}
use superform_go_utils.Txmngr.Mem.Query.{
  Query, new_query, filter_by_ids, filter_by_chain_ids, filter_by_sender_or_unset,
  filter_by_statuses, filter_ready_before, order_by_lane_work, limit_to, select, get,
}
use superform_go_utils.Txmngr.Action.{
  Action, State, Result, ok, err, ◌>>=◌, ◌>>◌, pure, ask, gets, try, write, emit, update_lane,
  active_set,
}
use superform_go_utils.Txmngr.Manager.{
  Manager, now, block_time, max_chain_workers, max_transactions_per_lane,
}
use superform_go_utils.Txmngr.Step.{process_transaction_step}

-- `slices.Sorted(maps.Keys(m.clients))`
unfoldable pub sorted_ids : List ℕ → List ℕ
sorted_ids ids = sort_stable compare ids

abbrev pub at_or_zero : Option ℕ → ℕ
at_or_zero none = 0
at_or_zero (some id) = id

-- The loop over the offsets from `start`: `rounds` ids, round robin over `ids`.
unfoldable pub select_round : List ℕ → ℕ → ℕ → List ℕ
select_round ids start zero = []
select_round ids start (suc rounds) =
    at_or_zero (get_elem? ids (start % length ids)) ∷ select_round ids (start + 1) rounds

-- The selected chains and the next index, from the limit and the index of the pass before.
unfoldable pub next_work_chain_ids : List ℕ → ℕ → ℕ → List ℕ × ℕ
unfolding select_round
next_work_chain_ids client_ids limit index =
    let ids = sorted_ids client_ids in
    let count = min limit (length ids) in
    let start = index % length ids in
    if length ids == 0 || limit == 0
    then ([], index)
    else (select_round ids start count, (start + count) % length ids)

unfoldable pub lane_query : Manager → ℕ → Time → Query
lane_query m chain_id time = limit_to max_transactions_per_lane (
    order_by_lane_work (
      filter_ready_before time (
        filter_by_statuses active_statuses
          (filter_by_sender_or_unset m.sender (filter_by_chain_ids (chain_id ∷ []) new_query)))))

-- The lane that the durable high-water mark gives.
unfoldable pub lane_from : Option ℕ → NonceLane
lane_from none = record { next = 0; known = false }
lane_from (some max_nonce) = record { next = u64 (max_nonce + 1); known = true }

abbrev pub set_lane : Option ℕ → Action (Unit {0})
set_lane found = update_lane (λ _. lane_from found)

-- A write whose error is only logged.
unfoldable pub ignore_error : Action (Unit {0}) → Action (Unit {0})
ignore_error m = do outcome ← try m; pure tt

module _ (m : Manager) where
  unfoldable pub delayed_row : Transaction → Failure → Time → Time → Transaction
  delayed_row current cause time updated = record current {
    msg = transaction_message_tail cause.text;
    next_action_at = time + block_time m current.chain_id;
    updated_at = updated;
    status =
        if is_some current.tx || is_some current.assigned_nonce then confirming else current.status;
  }

  unfoldable pub delay_row : Option Transaction → Failure → Action (Unit {0})
  delay_row none cause = pure tt
  delay_row (some current) cause = if is_completed current then pure tt else do
    time ← now m
    updated ← now m
    ignore_error (write (λ q. update_if_active q (delayed_row current cause time updated)))

  unfoldable pub reschedule_transaction : Transaction → Failure → Action (Unit {0})
  reschedule_transaction tx cause = do
    current ← gets (λ s. get (filter_by_ids (tx.id ∷ []) new_query) s.store.txs)
    delay_row current cause

  abbrev pub is_barrier : Failure → Bool
  is_barrier e = is lane_awaiting_node_nonce e || is lane_state_changed e

  -- What the loop does with the error of a step; `continue` goes on with the next row.
  unfoldable pub after_failure : Transaction → Failure → Action (Unit {0}) → Action (Unit {0})
  after_failure tx e next_row =
      if is stale_transaction e then next_row else if is_barrier e then pure tt else do
        stopped ← ask m.context_done
        if stopped then pure tt else do
          reschedule_transaction tx e
          if is transaction_unprocessable e then next_row else pure tt

  unfoldable pub after_step :
      Transaction → Action (Unit {0}) → Result (Unit {0}) → Action (Unit {0})
  unfolding after_failure
  after_step tx next_row (ok done) = next_row
  after_step tx next_row (err e) = after_failure tx e next_row

  unfoldable pub process_rows : List Transaction → Action (Unit {0})
  unfolding after_step
  process_rows [] = pure tt
  process_rows (tx ∷ rest) = do
    stopped ← ask m.context_done
    if stopped then pure tt else do
      outcome ← try (process_transaction_step m tx)
      after_step tx (process_rows rest) outcome

  -- The part of `processLaneBatch` that runs while the lane is locked.
  unfoldable pub process_locked_lane : ℕ → Action (Unit {0})
  process_locked_lane chain_id = do
    max_nonce ← gets (λ s. max_assigned_nonce s.store m.sender chain_id)
    set_lane max_nonce
    time ← now m
    transactions ← gets (λ s. select (lane_query m chain_id time) s.store.txs)
    process_rows transactions

  abbrev pub with_store : State → Store → State
  with_store s store = record s { store = store }

  unfoldable pub acquire_lane : ℕ → Action (Option LaneLock)
  acquire_lane chain_id s =
      let (lock, store) = try_lock_lane s.store m.sender chain_id in (ok lock, with_store s store)

  unfoldable pub release_lane : LaneLock → Action (Unit {0})
  release_lane lock s = (ok tt, with_store s (unlock s.store lock).1)

  abbrev pub locked_batch : ℕ → Option LaneLock → Action (Unit {0})
  locked_batch chain_id none = pure tt
  locked_batch chain_id (some lock) = do
    outcome ← try (process_locked_lane chain_id)
    release_lane lock

  -- A cancelled context ends the pass at the head of the method, or makes the lock refuse.
  unfoldable pub process_lane_batch : ℕ → Action (Unit {0})
  process_lane_batch chain_id = do
    stopped ← ask m.context_done
    refused_lock ← ask m.context_done
    if stopped || refused_lock
        then pure tt
        else do lock ← acquire_lane chain_id; locked_batch chain_id lock

  unfoldable pub process_lanes : List ℕ → Action (Unit {0})
  process_lanes [] = pure tt
  process_lanes (chain_id ∷ rest) = do process_lane_batch chain_id; process_lanes rest

  -- The index goes in and comes out.
  unfoldable pub process_txs : ℕ → Action ℕ
  unfolding process_lanes
  process_txs index = do
    process_lanes (next_work_chain_ids m.client_ids max_chain_workers index).0
    pure (next_work_chain_ids m.client_ids max_chain_workers index).1

  abbrev count_of : Option ℕ → ℕ
  count_of none = 0
  count_of (some n) = n

  unfoldable pub set_client_counts : List ℕ → Assoc ℕ ℕ → Action (Assoc ℕ ℕ)
  set_client_counts [] counts = pure counts
  set_client_counts (chain_id ∷ rest) counts = do
    emit (active_set chain_id (count_of (lookup chain_id counts)))
    set_client_counts rest (remove chain_id counts)

  unfoldable pub set_other_counts : Assoc ℕ ℕ → Action (Unit {0})
  set_other_counts [] = pure tt
  set_other_counts ((chain_id, count) ∷ rest) = do
    emit (active_set chain_id count)
    set_other_counts rest

  unfoldable pub observe_transaction_metrics : Action (Unit {0})
  unfolding set_client_counts set_other_counts
  observe_transaction_metrics = do
    stopped ← ask m.context_done
    if stopped then pure tt else do
      counts ← gets (λ s. count_by_chain s.store active_statuses)
      others ← set_client_counts m.client_ids counts
      set_other_counts others
