-- ===== src/EventIndexer/Steps.antt =====
-- The runs of the event indexer: every interleaving of its calls, of its watcher and of its
-- goroutines (evm/eventindexer/event_indexer.go).
use superform_go_utils.Prelude.{ℕ, Bool, false, List, Text, Assoc, contains, ◌≡◌, nat_eq}
use superform_go_utils.EventIndexer.{
  Address, Hash, Channel, Indexer, LoopEvent, start, cancel_context, stop_contracts, tick,
  context_done,
}
use superform_go_utils.EventIndexer.Registrations.{add_contract, remove_contract, process_logs}

module _ (hex_address : Address → Text) (hex_hash : Hash → Text) where
  -- The two halves of `shutdown` are steps of their own. A caller adds only channels that the indexer
  -- has not closed.
  pub data Step (s : Indexer) : Indexer → Type 0 where
    starts : Step s (start s).1
    cancels : Step s (cancel_context s)
    stops : Step s (stop_contracts s)
    ticks : Step s (tick s)
    context_ends : (id : ℕ) → Step s (context_done id s)
    adds :
        (dials : ℕ → Bool) (addresses again : Assoc ℕ Address) (events : List Hash) (c : Channel)
        → contains s.closed c ≡ false
        → Step s (add_contract hex_address hex_hash dials addresses again events c s).1
    removes :
        (chain_ids : List ℕ) (address : Text)
        → Step s (remove_contract hex_address hex_hash chain_ids address s).1
    turns : (id : ℕ) (event : LoopEvent) → Step s (process_logs hex_address hex_hash id event s)

  pub data Reach (s : Indexer) : Indexer → Type 0 where
    here : Reach s s
    next : {t u : Indexer} → Reach s t → Step t u → Reach s u
