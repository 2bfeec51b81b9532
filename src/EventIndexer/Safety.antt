-- ===== src/EventIndexer/Safety.antt =====
-- What holds in every state that the event indexer reaches, whatever the interleaving of its calls,
-- its watcher and its goroutines (evm/eventindexer/event_indexer.go).
use superform_go_utils.Prelude.{ℕ, Bool, true, false, List, Text, contains, ◌≡◌, nat_eq}
use superform_go_utils.Prelude.Int.{ℤ, pos}
use superform_go_utils.EventIndexer.{Address, Hash, Channel, Indexer, new_indexer, count_of}
use superform_go_utils.EventIndexer.Steps.{
  Step, Reach, starts, cancels, stops, ticks, context_ends, adds, removes, turns, here, next,
}
use superform_go_utils.EventIndexer.Counts.{total, uses, holds}
use superform_go_utils.EventIndexer.Bookkeeping.{
  Consistent, new_indexer-Consistent, start-Consistent, cancel_context-Consistent,
  stop_contracts-Consistent, tick-Consistent, context_done-Consistent,
}
use superform_go_utils.EventIndexer.Consistent.{
  add_contract-Consistent, remove_contract-Consistent, process_logs-Consistent,
}

module _ (hex_address : Address → Text) (hex_hash : Hash → Text) where
  pub Step-Consistent :
      {s t : Indexer} → Step hex_address hex_hash s t → Consistent s → Consistent t
  Step-Consistent {s} starts h = start-Consistent s h
  Step-Consistent {s} cancels h = cancel_context-Consistent s h
  Step-Consistent {s} stops h = stop_contracts-Consistent s h
  Step-Consistent {s} ticks h = tick-Consistent s h
  Step-Consistent {s} (context_ends id) h = context_done-Consistent id s h
  Step-Consistent {s} (adds dials addresses again events c opened) h =
      add_contract-Consistent hex_address hex_hash dials addresses again events c s opened h
  Step-Consistent {s} (removes chain_ids address) h =
      remove_contract-Consistent hex_address hex_hash chain_ids address s h
  Step-Consistent {s} (turns id event) h = process_logs-Consistent hex_address hex_hash id event s h

  pub Reach-Consistent :
      {s t : Indexer} → Reach hex_address hex_hash s t → Consistent s → Consistent t
  Reach-Consistent here h = h
  Reach-Consistent (next r step) h = Step-Consistent step (Reach-Consistent r h)

  -- No run of a new indexer sends to a closed channel or closes one twice, as long as no caller adds
  -- a channel that the indexer has closed.
  pub Reach-never_panics :
      (clients : List ℕ) (interval : ℤ) (reports_errors : Bool) (s : Indexer)
      → Reach hex_address hex_hash (new_indexer clients interval reports_errors) s
      → s.panicked ≡ false
  Reach-never_panics clients interval reports_errors s run =
      let (fresh, counted, unused, subscribed, calm) =
        Reach-Consistent run (new_indexer-Consistent clients interval reports_errors) in
      calm

  -- In every state that a new indexer reaches, no caller having added a channel that it has closed, the
  -- count of a channel is the number of goroutines that send to it, no goroutine sends to a closed
  -- channel, and the subscriptions that were opened and not given back are those that they hold.
  pub Reach-count_of :
      (clients : List ℕ) (interval : ℤ) (reports_errors : Bool) (s : Indexer) (c : Channel)
      → Reach hex_address hex_hash (new_indexer clients interval reports_errors) s
      → (count_of c s.outputs ≡ pos (total (uses c) s.running))
        × (contains s.closed c ≡ true → total (uses c) s.running ≡ 0)
        × (s.subscriptions ≡ total holds s.running)
  Reach-count_of clients interval reports_errors s c run =
      let (fresh, counted, unused, subscribed, calm) =
        Reach-Consistent run (new_indexer-Consistent clients interval reports_errors) in
      (counted c, unused c, subscribed)
