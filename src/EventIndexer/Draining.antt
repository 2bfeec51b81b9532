-- ===== src/EventIndexer/Draining.antt =====
-- How the event indexer ends: what the turns of the goroutines do after `shutdown`
-- (evm/eventindexer/event_indexer.go). `Stop` calls `shutdown` and waits; the wait is not modelled.
use superform_go_utils.Prelude.{
  ◌⊎◌, if-preserves, ℕ, ◌≤◌, ◌<◌, Bool, true, false, ◌||◌, List, [], ◌∷◌, some, Text, Assoc, lookup,
  remove, contains, ◌≡◌, refl, ap, sym, ◌∙◌, subst, arith, nat_eq, nat_beq, inl, inr, Bool-cases,
  if◌then◌else◌, ltb,
}
use superform_go_utils.Prelude.Int.{ℤ, pos}
use superform_go_utils.EventIndexer.{
  Address, Hash, Channel, ContractInfo, Indexer, exit, new_indexer, count_of, release,
  close_channel, is_zero, decrement, shutdown, stop_contracts, cancel_context, cancel,
}
use superform_go_utils.EventIndexer.Registrations.{finish, process_logs, turn, forget, key_of}
use superform_go_utils.EventIndexer.Steps.{Reach}
use superform_go_utils.EventIndexer.Counts.{total, uses, holds, Fresh, total-update_each}
use superform_go_utils.EventIndexer.Bookkeeping.{
  Consistent, new_indexer-Consistent, cancel_context-Consistent, stop_contracts-Consistent,
}
use superform_go_utils.EventIndexer.Consistent.{
  process_logs-Consistent, finish-Owing, decrement-count, Owing,
}
use superform_go_utils.EventIndexer.Safety.{Reach-Consistent}

-- What a release leaves alone.
abbrev Keeps : Indexer → Indexer → Type 0
Keeps s t =
    (t.running ≡ s.running)
    × (t.stopped ≡ s.stopped)
    × ((d : Channel) → contains s.closed d ≡ true → contains t.closed d ≡ true)

release-Keeps : (c : Channel) (s : Indexer) → Keeps s (release c s)
unfolding release close_channel
release-Keeps c s =
    if-preserves (Keeps s) (is_zero (decrement (count_of c s.outputs))) _ _
      (λ e. elim (Bool-cases (contains s.closed c)) [
        | inl shut ↦ rw shut (refl, refl, (λ d h. h))
        | inr opened ↦ rw opened (refl, refl, (λ d h. ground arith))
      ])
      (λ e. (refl, refl, (λ d h. h)))

-- The last registration of a channel closes it.
release-closes :
    (c : Channel) (s : Indexer)
    → Owing c s
    → total (uses c) s.running ≡ 0
    → contains (release c s).closed c ≡ true
unfolding release close_channel
release-closes c s (fresh, counted, unused, subscribed, calm, opened) nobody =
    let self : nat_beq c c ≡ true = ground arith in
    let last : decrement (count_of c s.outputs) ≡ pos 0 =
      decrement-count (count_of c s.outputs) 0
        (counted c ∙ rw self (ap pos (omega (arith, nobody)))) in
    rw (last, opened) (ground arith)

remove-above : (n id : ℕ) (r : Assoc ℕ ContractInfo) → Fresh n r → n ≤ id → remove id r ≡ r
unfolding remove
remove-above n id [] h above = refl
remove-above n id ((j, contract) ∷ rest) (below, h) above =
    let other : nat_beq j id ≡ false = ground arith in
    rw (other, remove-above j id rest h (omega arith)) refl

turn_exit :
    (b stopped : Bool) (x y : Indexer) → stopped ≡ true → (if b || stopped then x else y) ≡ x
turn_exit true stopped x y h = refl
turn_exit false stopped x y h = rw h refl

stop_contracts-stopped : (s : Indexer) → (stop_contracts s).stopped ≡ true
unfolding stop_contracts
stop_contracts-stopped s =
    if-preserves (λ (t : Indexer). t.stopped ≡ true) s.stopped _ _ (λ e. e) (λ e. refl)

stop_contracts-total :
    (c : Channel) (s : Indexer)
    → total (uses c) (stop_contracts s).running ≡ total (uses c) s.running
unfolding stop_contracts uses
stop_contracts-total c s =
    if-preserves (λ (t : Indexer). total (uses c) t.running ≡ total (uses c) s.running) s.stopped _
      _ (λ e. refl) (λ e. total-update_each (uses c) cancel s.contracts s.running (λ k. refl))

none_held : (r : Assoc ℕ ContractInfo) → r ≡ [] → total holds r ≡ 0
unfolding total
none_held r e = ap (total holds) e

none_use : (c : Channel) (r : Assoc ℕ ContractInfo) → r ≡ [] → total (uses c) r ≡ 0
unfolding total
none_use c r e = ap (total (uses c)) e

module _ (hex_address : Address → Text) (hex_hash : Hash → Text) where
  -- Every goroutine of a list, in its order, takes one turn in which it receives from a closed
  -- context or from `stop`.
  abbrev pub exit_all : Assoc ℕ ContractInfo → Indexer → Indexer
  exit_all [] s = s
  exit_all ((id, contract) ∷ rest) s = exit_all rest (process_logs hex_address hex_hash id exit s)

  process_logs-exit :
      (id : ℕ) (contract : ContractInfo) (s : Indexer)
      → lookup id s.running ≡ some contract
      → s.stopped ≡ true
      → process_logs hex_address hex_hash id exit s ≡ finish hex_address hex_hash id contract s
  unfolding process_logs turn
  process_logs-exit id contract s found stopped =
      rw found (turn_exit contract.cancelled s.stopped _ _ stopped)

  -- What is left when a goroutine has gone.
  abbrev Left : ContractInfo → Assoc ℕ ContractInfo → Indexer → Indexer → Type 0
  Left contract rest s t =
      (t.running ≡ rest)
      × (t.stopped ≡ s.stopped)
      × ((d : Channel) → contains s.closed d ≡ true → contains t.closed d ≡ true)
      × (total (uses contract.event_chan) rest ≡ 0 → contains t.closed contract.event_chan ≡ true)

  remove-head :
      (id : ℕ) (contract : ContractInfo) (rest : Assoc ℕ ContractInfo)
      → Fresh id rest
      → remove id ((id, contract) ∷ rest) ≡ rest
  unfolding remove
  remove-head id contract rest h =
      let self : nat_beq id id ≡ true = ground arith in
      rw self (remove-above id id rest h (omega arith))

  lookup-head :
      (id : ℕ) (contract : ContractInfo) (rest : Assoc ℕ ContractInfo)
      → lookup id ((id, contract) ∷ rest) ≡ some contract
  unfolding lookup
  lookup-head id contract rest = let self : nat_beq id id ≡ true = ground arith in rw self refl

  -- The newest goroutine leaves.
  leaves :
      (id : ℕ) (contract : ContractInfo) (rest : Assoc ℕ ContractInfo) (s : Indexer)
      → s.running ≡ (id, contract) ∷ rest
      → s.stopped ≡ true
      → Consistent s
      → Left contract rest s (process_logs hex_address hex_hash id exit s)
  unfolding finish
  leaves id contract rest s runs stopped (fresh, counted, unused, subscribed, calm) =
      let c = contract.event_chan in
      let h : Consistent s = (fresh, counted, unused, subscribed, calm) in
      let (below, others) = subst (Fresh s.next_id) runs fresh in
      let found : lookup id s.running ≡ some contract =
        ap (λ r. lookup id r) runs ∙ lookup-head id contract rest in
      let gone : remove id s.running ≡ rest =
        ap (λ r. remove id r) runs ∙ remove-head id contract rest others in
      let owing =
        finish-Owing id contract
          (forget hex_address hex_hash id (key_of hex_address hex_hash contract) s.contracts) s
          found h in
      let (same_running, same_stop, grows) = release-Keeps c _ in
      subst (Left contract rest s) (sym (process_logs-exit id contract s found stopped)) (
        same_running ∙ gone,
        same_stop,
        grows,
        (λ nobody. release-closes c _ owing (ap (total (uses c)) gone ∙ nobody)),
      )

  -- Every goroutine of a stopped indexer leaves in its turn.
  drains :
      (r : Assoc ℕ ContractInfo) (s : Indexer)
      → s.running ≡ r
      → s.stopped ≡ true
      → Consistent s
      → ((exit_all r s).running ≡ [])
        × Consistent (exit_all r s)
        × ((d : Channel) → contains s.closed d ≡ true → contains (exit_all r s).closed d ≡ true)
        × ((d : Channel) → 0 < total (uses d) r → contains (exit_all r s).closed d ≡ true)
  unfolding total uses
  drains [] s runs stopped h = (runs, h, (λ d shut. shut), (λ d some_use. absurd (omega arith)))
  drains ((id, contract) ∷ rest) s runs stopped h =
      let u = process_logs hex_address hex_hash id exit s in
      let (left, same_stop, grows, closes) = leaves id contract rest s runs stopped h in
      let (empty, kept, grows', closed) =
        drains rest u left (same_stop ∙ stopped)
          (process_logs-Consistent hex_address hex_hash id exit s h) in
      (
        empty,
        kept,
        (λ d shut. grows' d (grows d shut)),
        (λ d some_use. elim (Bool-cases (ltb 0 (total (uses d) rest))) [
          | inl more ↦ closed d (ground arith)
          | inr last ↦
              let only : contract.event_chan ≡ d = ground arith in
              subst (λ k. contains (exit_all rest u).closed k ≡ true) only
                (grows' contract.event_chan
                  (closes (ap (λ k. total (uses k) rest) only ∙ ground arith)))
        ]),
      )

  -- What the indexer is like once every goroutine has gone and each channel has been dealt with.
  abbrev pub Drained : Indexer → Indexer → Type 0
  Drained s t =
      (t.running ≡ [])
      × (t.subscriptions ≡ 0)
      × (t.panicked ≡ false)
      × ((c : Channel) → count_of c t.outputs ≡ pos 0)
      × ((c : Channel) → (total (uses c) s.running ≡ 0) ⊎ (contains t.closed c ≡ true))

  -- From every state that a new indexer reaches, `shutdown` and then one exit turn of each goroutine
  -- that is running leave no goroutine, no open subscription and no counted channel; every channel
  -- that a goroutine sent to is then closed, and nothing has panicked. The turns do nothing but
  -- receive: it is `shutdown` that lets them leave. A state is reached as long as no caller adds a
  -- channel that the indexer has closed.
  pub shutdown-drains :
      (clients : List ℕ) (interval : ℤ) (reports_errors : Bool) (s : Indexer)
      → Reach hex_address hex_hash (new_indexer clients interval reports_errors) s
      → Drained s (exit_all (shutdown s).running (shutdown s))
  unfolding shutdown cancel_context
  shutdown-drains clients interval reports_errors s run =
      let h =
        Reach-Consistent hex_address hex_hash run
          (new_indexer-Consistent clients interval reports_errors) in
      let u = shutdown s in
      let t = exit_all u.running u in
      let kept : Consistent u =
        stop_contracts-Consistent (cancel_context s) (cancel_context-Consistent s h) in
      let (empty, (fresh, counted, unused, held, calm), grows, closed) =
        drains u.running u refl (stop_contracts-stopped (cancel_context s)) kept in
      (
        empty,
        held ∙ none_held t.running empty,
        calm,
        (λ c. counted c ∙ ap pos (none_use c t.running empty)),
        (λ c. elim (Bool-cases (ltb 0 (total (uses c) s.running))) [
          | inl more ↦ inr (
              closed c (
                subst (λ n. 0 < n) (sym (stop_contracts-total c (cancel_context s)))
                  (ground arith)))
          | inr none_left ↦ inl (ground arith)
        ]),
      )
