-- ===== src/Txmngr/Tests.antt =====
-- The guarantees of the transaction manager (evm/txmngr) at concrete inputs, and runs of the model.
mod Parts
mod Queue
use superform_go_utils.Prelude.{
  List, [], ◌++◌, some, text_eq, nat_eq, ◌≡◌, refl, lookup, All, codes, text_beq,
}
use superform_go_utils.Txmngr.Types.{Transaction, TransactionAttempt, is_completed}
use superform_go_utils.Txmngr.Mem.{attempts_of}
use superform_go_utils.Txmngr.Batch.{process_lane_batch, process_txs}
use superform_go_utils.Txmngr.Safety.{IsDurable, EffectOwned, IsValid}
use superform_go_utils.Txmngr.Guarantees.{
  process_txs-terminal_fixed, process_txs-keeps_rows, process_txs-appends_attempts,
  process_txs-owner_fixed, process_txs-persists_before_send, process_txs-stores-IsDurable,
  process_lane_batch-releases_lock,
}
use superform_go_utils.Txmngr.Sample.{
  sample_manager, sample_store, sample_state, owned_state, blank_row, done_row,
}

sample_state-IsValid : IsValid sample_state
unfolding attempts_of lookup
sample_state-IsValid = record { stored = λ id. tt; broadcast = tt }

owned_state-IsValid : IsValid owned_state
unfolding attempts_of lookup
owned_state-IsValid = record { stored = λ id. tt; broadcast = tt }

process_txs-terminal_fixed_example :
    lookup (codes "b") (process_txs sample_manager 0 sample_state).1.store.txs ≡ some done_row
unfolding lookup is_completed text_beq
process_txs-terminal_fixed_example =
    process_txs-terminal_fixed sample_manager 0 sample_state (codes "b") done_row
      sample_state-IsValid refl refl

process_txs-appends_attempts_example :
    (more : List TransactionAttempt) × (attempts_of
        (process_txs sample_manager 0 sample_state).1.store
        (codes "a")
      ≡ attempts_of sample_store (codes "a") ++ more)
process_txs-appends_attempts_example =
    process_txs-appends_attempts sample_manager 0 sample_state (codes "a") sample_state-IsValid

process_txs-owner_fixed_example :
    lookup 4100 (process_txs sample_manager 0 owned_state).1.store.hashes ≡ some (codes "b")
unfolding lookup
process_txs-owner_fixed_example =
    process_txs-owner_fixed sample_manager 0 owned_state 4100 (codes "b") owned_state-IsValid refl

process_txs-persists_before_send_example :
    All
      (EffectOwned (process_txs sample_manager 0 sample_state).1.store)
      (process_txs sample_manager 0 sample_state).1.trace
process_txs-persists_before_send_example =
    process_txs-persists_before_send sample_manager 0 sample_state sample_state-IsValid

process_txs-stores-IsDurable_example :
    All
      (IsDurable (process_txs sample_manager 0 sample_state).1.store)
      (attempts_of (process_txs sample_manager 0 sample_state).1.store (codes "a"))
process_txs-stores-IsDurable_example =
    process_txs-stores-IsDurable sample_manager 0 sample_state (codes "a") sample_state-IsValid

process_lane_batch-releases_lock_example :
    (process_lane_batch sample_manager 10 sample_state).1.store.lane_locks ≡ []
process_lane_batch-releases_lock_example =
    process_lane_batch-releases_lock sample_manager 10 sample_state sample_state-IsValid
