-- ===== src/Txmngr/Safety/Batching.antt =====
-- A whole pass over a lane: the durable state is extended, and the lane's lock is released. The
-- queue is that of evm/txmngr/txmngr_provider/mem/tx.go, the pass `processLaneBatch` of
-- evm/txmngr/txmngr.go.
use superform_go_utils.Prelude.{
  ℕ, List, [], ◌∷◌, Option, none, some, true, false, ◌≡◌, refl, All, ◌∙◌, ap, inl, inr, Bool-cases,
  arith, not, filterb, contains, ◌==◌,
}
use superform_go_utils.Txmngr.Types.{Transaction, TransactionAttempt}
use superform_go_utils.Txmngr.Errors.{Failure}
use superform_go_utils.Txmngr.Mem.{Store, LaneKey, lane_key_eq, attempts_of, try_lock_lane, unlock}
use superform_go_utils.Txmngr.Action
use superform_go_utils.Txmngr.Action.{
  Action, State, Result, ok, err, Effect, sent, result_observed, barrier_observed, active_set,
  ◌>>=◌, try,
}
use superform_go_utils.Txmngr.Manager.{Manager}
use superform_go_utils.Txmngr.Batch.{
  ignore_error, delay_row, reschedule_transaction, after_failure, after_step, process_rows,
  process_locked_lane, acquire_lane, release_lane, locked_batch, process_lane_batch, process_lanes,
  process_txs,
}
use superform_go_utils.Txmngr.Safety.Durable.{IsDurable, EffectOwned, IsValid, Extends}
use superform_go_utils.Txmngr.Safety.Keeps.{Keeps, Extends-refl}
use superform_go_utils.Txmngr.Safety.Sending.{keeps_rules, Keeps-now}
use superform_go_utils.Txmngr.Safety.Stepping.{Keeps-step}

module _ (m : Manager) where
  Keeps-ignore_error : (f : Action (Unit {0})) → Keeps [] f → Keeps [] (ignore_error f)
  unfolding ignore_error
  Keeps-ignore_error f k = search keeps_rules

  Keeps-delay_row :
      (current : Option Transaction) (cause : Failure) → Keeps [] (delay_row m current cause)
  unfolding delay_row
  Keeps-delay_row none cause = search keeps_rules
  Keeps-delay_row (some current) cause = search (keeps_rules, Keeps-now, Keeps-ignore_error)

  Keeps-reschedule :
      (tx : Transaction) (cause : Failure) → Keeps [] (reschedule_transaction m tx cause)
  unfolding reschedule_transaction
  Keeps-reschedule tx cause = search (keeps_rules, Keeps-delay_row)

  Keeps-after_step :
      (tx : Transaction) (next_row : Action (Unit {0}))
      → Keeps [] next_row
      → (outcome : Result (Unit {0})) → Keeps [] (after_step m tx next_row outcome)
  unfolding after_step after_failure
  Keeps-after_step tx next_row k (ok done) = k
  Keeps-after_step tx next_row k (err e) = search (keeps_rules, Keeps-reschedule) depth 10

  Keeps-process_rows : (rows : List Transaction) → Keeps [] (process_rows m rows)
  unfolding process_rows
  Keeps-process_rows [] = search keeps_rules
  Keeps-process_rows (tx ∷ rest) =
      let later = Keeps-process_rows rest in
      search (keeps_rules, Keeps-step, Keeps-after_step) depth 10

  pub Keeps-locked_lane : (chain_id : ℕ) → Keeps [] (process_locked_lane m chain_id)
  unfolding process_locked_lane
  Keeps-locked_lane chain_id = search (keeps_rules, Keeps-now, Keeps-process_rows) depth 10

abbrev without : LaneKey → List LaneKey → List LaneKey
without key locks = filterb (λ k. not (k == key)) locks

without_absent :
    (key : LaneKey) (locks : List LaneKey) → contains locks key ≡ false → without key locks ≡ locks
without_absent key [] h = refl
without_absent key (k ∷ locks) h = ground (arith, without_absent key locks)

-- The locks that a held lane leaves once it is released.
without_own :
    (key : LaneKey) (locks : List LaneKey)
    → contains locks key ≡ false
    → without key (key ∷ locks) ≡ locks
without_own key locks h =
    ground (arith, (lane_key_eq.same_iff key key).1 refl, without_absent key locks)

abbrev with_locks : Store → List LaneKey → Store
with_locks s locks = record s { lane_locks = locks }

-- Locks play no part in what is said of rows and attempts.
Extends-with_locks :
    (s t : Store) (held free : List LaneKey)
    → free ≡ s.lane_locks
    → Extends (with_locks s held) t
    → Extends s (with_locks t free)
unfolding attempts_of
Extends-with_locks s t held free e h = record {
  settled = h.settled;
  kept = h.kept;
  owners = h.owners;
  appended = h.appended;
  locks = e;
}

IsDurable-with_locks :
    (s : Store) (locks : List LaneKey) (xs : List TransactionAttempt)
    → All (IsDurable s) xs
    → All (IsDurable (with_locks s locks)) xs
IsDurable-with_locks s locks [] h = tt
IsDurable-with_locks s locks (a ∷ rest) h =
    (record { owned = h.0.owned; matches = h.0.matches }, IsDurable-with_locks s locks rest h.1)

EffectOwned-with_locks :
    (s : Store) (locks : List LaneKey) (es : List Effect)
    → All (EffectOwned s) es
    → All (EffectOwned (with_locks s locks)) es
EffectOwned-with_locks s locks [] h = tt
EffectOwned-with_locks s locks (sent chain_id tx seen ∷ es) h =
    (h.0, EffectOwned-with_locks s locks es h.1)
EffectOwned-with_locks s locks (result_observed chain_id status ∷ es) h =
    (tt, EffectOwned-with_locks s locks es h.1)
EffectOwned-with_locks s locks (barrier_observed chain_id reason ∷ es) h =
    (tt, EffectOwned-with_locks s locks es h.1)
EffectOwned-with_locks s locks (active_set chain_id count ∷ es) h =
    (tt, EffectOwned-with_locks s locks es h.1)

IsValid-with_locks :
    (s : State) (locks : List LaneKey)
    → IsValid s
    → IsValid (record s { store = with_locks s.store locks })
unfolding attempts_of
IsValid-with_locks s locks v = record {
  stored = λ id. IsDurable-with_locks s.store locks (attempts_of s.store id) (v.stored id);
  broadcast = EffectOwned-with_locks s.store locks s.trace v.broadcast;
}

module _ (m : Manager) where
  abbrev key_of : ℕ → LaneKey
  key_of chain_id = record { lane_sender = m.sender; lane_chain = chain_id }

  -- Acquire, run and release, from a queue where the lane is free.
  batch_from_free :
      (chain_id : ℕ) (s : State)
      → contains s.store.lane_locks (key_of chain_id) ≡ false
      → IsValid s
      → Extends s.store ((acquire_lane m chain_id >>= locked_batch m chain_id) s).1.store
        × IsValid ((acquire_lane m chain_id >>= locked_batch m chain_id) s).1
  unfolding ◌>>=◌ acquire_lane try_lock_lane release_lane unlock try
  batch_from_free chain_id s free v = rw free (
    Extends-with_locks s.store t.store (key_of chain_id ∷ s.store.lane_locks)
        (without (key_of chain_id) t.store.lane_locks) released h.0,
    IsValid-with_locks t (without (key_of chain_id) t.store.lane_locks) h.1,
  )
    where
      locked : State
      locked = record s { store = with_locks s.store (key_of chain_id ∷ s.store.lane_locks) }

      t : State
      t = (process_locked_lane m chain_id locked).1

      h : Extends locked.store t.store × IsValid t
      h =
          (Keeps-locked_lane m chain_id).at locked
            (IsValid-with_locks s (key_of chain_id ∷ s.store.lane_locks) v) tt

      released : without (key_of chain_id) t.store.lane_locks ≡ s.store.lane_locks
      released =
          ap (without (key_of chain_id)) h.0.locks
          ∙ without_own (key_of chain_id) s.store.lane_locks free

  batch_from_held :
      (chain_id : ℕ) (s : State)
      → contains s.store.lane_locks (key_of chain_id) ≡ true
      → IsValid s
      → Extends s.store ((acquire_lane m chain_id >>= locked_batch m chain_id) s).1.store
        × IsValid ((acquire_lane m chain_id >>= locked_batch m chain_id) s).1
  unfolding ◌>>=◌ acquire_lane try_lock_lane Action.pure
  batch_from_held chain_id s held v = rw held (Extends-refl s.store, v)

  Keeps-acquired : (chain_id : ℕ) → Keeps [] (acquire_lane m chain_id >>= locked_batch m chain_id)
  Keeps-acquired chain_id = record {
    at = λ s v d. elim (Bool-cases (contains s.store.lane_locks (key_of chain_id))) [
      | inl held ↦ batch_from_held chain_id s held v
      | inr free ↦ batch_from_free chain_id s free v
    ];
  }

  pub Keeps-lane_batch : (chain_id : ℕ) → Keeps [] (process_lane_batch m chain_id)
  unfolding process_lane_batch
  Keeps-lane_batch chain_id = search (keeps_rules, Keeps-acquired) depth 8

  Keeps-lanes : (chain_ids : List ℕ) → Keeps [] (process_lanes m chain_ids)
  unfolding process_lanes
  Keeps-lanes [] = search keeps_rules
  Keeps-lanes (chain_id ∷ rest) =
      let later = Keeps-lanes rest in search (keeps_rules, Keeps-lane_batch)

  pub Keeps-process_txs : (index : ℕ) → Keeps [] (process_txs m index)
  unfolding process_txs
  Keeps-process_txs index = search (keeps_rules, Keeps-lanes)
