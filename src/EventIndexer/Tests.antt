-- ===== src/EventIndexer/Tests.antt =====
-- The event indexer at concrete inputs (evm/eventindexer/event_indexer.go).
use superform_go_utils.Prelude.{
  ℕ, ◌+◌, Bool, true, false, [], ◌∷◌, none, some, All, Assoc, contains, length, decimal, nat_eq,
  text_eq, ◌≡◌, refl, ◌⊎◌,
}
use superform_go_utils.Prelude.Int.{pos}
use superform_go_utils.EventIndexer.{
  Address, Indexer, IndexerError, new_indexer, count_of, shutdown,
}
use superform_go_utils.EventIndexer.Registrations.{add_contract}
use superform_go_utils.EventIndexer.Steps.{Reach, adds, here, next}
use superform_go_utils.EventIndexer.Counts.{total, uses, holds}
use superform_go_utils.EventIndexer.Safety.{Reach-never_panics, Reach-count_of}
use superform_go_utils.EventIndexer.Adding.{Watched, add_contract-atomic}
use superform_go_utils.EventIndexer.Draining.{exit_all, Drained, shutdown-drains}

abbrev fresh_indexer : Indexer
fresh_indexer = new_indexer (1 ∷ 10 ∷ []) (pos 30) true

abbrev both_chains : Assoc ℕ Address
both_chains = (1, 5) ∷ (10, 6) ∷ []

abbrev every_chain : ℕ → Bool
every_chain chain_id = true

abbrev added_once : Indexer
added_once = (add_contract decimal decimal every_chain both_chains both_chains [] 7 fresh_indexer).1

added_once-Reach : Reach decimal decimal fresh_indexer added_once
unfolding new_indexer
added_once-Reach = next here (adds every_chain both_chains both_chains [] 7 refl)

Reach-never_panics_example : added_once.panicked ≡ false
Reach-never_panics_example =
    Reach-never_panics decimal decimal (1 ∷ 10 ∷ []) (pos 30) true added_once added_once-Reach

Reach-count_of_example :
    (count_of 7 added_once.outputs ≡ pos (total (uses 7) added_once.running))
    × (contains added_once.closed 7 ≡ true → total (uses 7) added_once.running ≡ 0)
    × (added_once.subscriptions ≡ total holds added_once.running)
Reach-count_of_example =
    Reach-count_of decimal decimal (1 ∷ 10 ∷ []) (pos 30) true added_once 7 added_once-Reach

add_contract-atomic_example :
    ((e : IndexerError) × (add_contract decimal decimal every_chain both_chains both_chains [] 7
          fresh_indexer
        ≡ (some e, fresh_indexer)))
    ⊎ ((t : Indexer) × (add_contract decimal decimal every_chain both_chains both_chains [] 7
            fresh_indexer
          ≡ (none, t))
        × All (Watched decimal decimal [] t) both_chains
        × (t.next_id ≡ fresh_indexer.next_id + length both_chains)
        × (t.subscriptions ≡ fresh_indexer.subscriptions + length both_chains))
add_contract-atomic_example =
    add_contract-atomic decimal decimal every_chain both_chains both_chains [] 7 fresh_indexer

shutdown-drains_example :
    Drained decimal decimal added_once
      (exit_all decimal decimal (shutdown added_once).running (shutdown added_once))
shutdown-drains_example =
    shutdown-drains decimal decimal (1 ∷ 10 ∷ []) (pos 30) true added_once added_once-Reach
