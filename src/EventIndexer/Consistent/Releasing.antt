-- ===== src/EventIndexer/Consistent/Releasing.antt =====
-- The end of a goroutine of the event indexer gives back what it holds.
use superform_go_utils.Prelude.{
  if-preserves, ℕ, ◌+◌, Bool, true, false, ◌&&◌, List, ◌∷◌, none, some, Text, nat_beq,
  if◌then◌else◌, Assoc, lookup, insert, remove, contains, ◌≡◌, refl, ap, sym, ◌∙◌, arith,
  Bool-cases, inl, inr, nat_eq, lookup-insert, lookup-remove, subst, Option-cases,
}
use superform_go_utils.Prelude.Int.{ℤ, pos}
use superform_go_utils.EventIndexer.{
  Address, Hash, Channel, ContractInfo, Indexer, LoopEvent, exit, retry_accepted, retry_refused,
  failed, received, dropped, count_of, decrement, is_zero, close_channel, release, unsubscribe,
  done,
}
use superform_go_utils.EventIndexer.Registrations.{finish, turn, process_logs, forget, key_of}
use superform_go_utils.EventIndexer.Counts.{total, uses, holds, Fresh, remove-Fresh, total-remove}
use superform_go_utils.EventIndexer.Bookkeeping.{
  Consistent, Unused, open_channel, forward-Consistent, lose_subscription-Consistent,
  take_retry-Consistent,
}

pub count_of-insert :
    (c d : Channel) (n : ℤ) (outputs : Assoc Channel ℤ)
    → count_of d (insert c n outputs) ≡ (if nat_beq c d then n else count_of d outputs)
unfolding count_of
count_of-insert c d n outputs =
    rw (lookup-insert c d n outputs)
      (elim (Bool-cases (nat_beq c d)) [ inl same ↦ rw same refl | inr other ↦ rw other refl ])

count_of-remove :
    (c d : Channel) (outputs : Assoc Channel ℤ)
    → count_of d (remove c outputs) ≡ (if nat_beq c d then pos 0 else count_of d outputs)
unfolding count_of
count_of-remove c d outputs =
    rw (lookup-remove c d outputs)
      (elim (Bool-cases (nat_beq c d)) [ inl same ↦ rw same refl | inr other ↦ rw other refl ])

-- The state is consistent but for one registration of a channel, which is counted and no longer runs.
abbrev pub Owing : Channel → Indexer → Type 0
Owing c s =
    Fresh s.next_id s.running
    × ((d : Channel)
        → count_of d s.outputs ≡ pos (total (uses d) s.running + (if nat_beq c d then 1 else 0)))
    × Unused s.running s.closed
    × (s.subscriptions ≡ total holds s.running)
    × (s.panicked ≡ false)
    × (contains s.closed c ≡ false)

pub decrement-count : (n : ℤ) (m : ℕ) → n ≡ pos (m + 1) → decrement n ≡ pos m
decrement-count n m e = ap decrement e ∙ ground arith

pub zero-count : (n : ℤ) (m : ℕ) → n ≡ pos m → is_zero n ≡ true → m ≡ 0
zero-count n m e z = ground (arith, ap is_zero e)

-- A new count at one key, and what stands at the others.
pub count-at :
    (c d : Channel) (new old : ℤ) (f : Channel → ℕ)
    → new ≡ pos (f c)
    → (nat_beq c d ≡ false → old ≡ pos (f d))
    → (if nat_beq c d then new else old) ≡ pos (f d)
count-at c d new old f at_c elsewhere = elim (Bool-cases (nat_beq c d)) [
  | inl found ↦ let same : c ≡ d = ground arith in rw found (at_c ∙ ap (λ k. pos (f k)) same)
  | inr other ↦ rw other (elsewhere other)
]

pub not_owed :
    (b : Bool) (n : ℤ) (m : ℕ) → n ≡ pos (m + (if b then 1 else 0)) → b ≡ false → n ≡ pos m
not_owed true n m e h = absurd (ground arith)
not_owed false n m e h = e ∙ ap pos (omega arith)

pub nobody_uses :
    (c : Channel) (r : Assoc ℕ ContractInfo) (closed : List Channel)
    → total (uses c) r ≡ 0
    → Unused r closed
    → Unused r (c ∷ closed)
nobody_uses c r closed nobody unused d shut = elim (Bool-cases (nat_beq c d)) [
  | inl found ↦ let same : c ≡ d = ground arith in subst (λ k. total (uses k) r ≡ 0) same nobody
  | inr other ↦ unused d (ground arith)
]

unsubscribe-count : (b : Bool) (n m : ℕ) → n ≡ m + (if b then 1 else 0) → unsubscribe b n ≡ m
unsubscribe-count true n m e = omega arith
unsubscribe-count false n m e = omega arith

release-Consistent : (c : Channel) (s : Indexer) → Owing c s → Consistent (release c s)
unfolding release close_channel
release-Consistent c s (fresh, counted, unused, subscribed, calm, opened) =
    let left = decrement (count_of c s.outputs) in
    let self : nat_beq c c ≡ true = ground arith in
    let lowered : left ≡ pos (total (uses c) s.running) =
      decrement-count (count_of c s.outputs) (total (uses c) s.running) (
        subst (λ b. count_of c s.outputs ≡ pos (total (uses c) s.running + (if b then 1 else 0)))
          self (counted c)) in
    let elsewhere = λ (d : Channel).
      not_owed (nat_beq c d) (count_of d s.outputs) (total (uses d) s.running) (counted d) in
    if-preserves Consistent (is_zero left) _ _
      (λ last.
        let nobody = zero-count left (total (uses c) s.running) lowered last in
        let shut : Unused s.running (c ∷ s.closed) =
          nobody_uses c s.running s.closed nobody unused in
        rw opened (
          fresh,
          (λ d.
              count_of-remove c d (insert c left s.outputs)
              ∙ count-at c d (pos 0) (count_of d (insert c left s.outputs))
                  (λ k. total (uses k) s.running) (ap pos (sym nobody))
                  (λ other. count_of-insert c d left s.outputs ∙ rw other (elsewhere d other))),
          shut,
          subscribed,
          calm,
        ))
      (λ more. (
        fresh,
        (λ d.
            count_of-insert c d left s.outputs
            ∙ count-at c d left (count_of d s.outputs) (λ k. total (uses k) s.running) lowered
                (elsewhere d)),
        unused,
        subscribed,
        calm,
      ))

-- What a registration owes when its goroutine has ended.
pub finish-Owing :
    (id : ℕ) (contract : ContractInfo) (contracts : Assoc Text ℕ) (s : Indexer)
    → lookup id s.running ≡ some contract
    → Consistent s
    → Owing contract.event_chan (record s {
      subscriptions = unsubscribe contract.subscribed s.subscriptions;
      contracts = contracts;
      running = remove id s.running;
    })
unfolding uses holds
finish-Owing id contract contracts s found (fresh, counted, unused, subscribed, calm) =
    let h : Consistent s = (fresh, counted, unused, subscribed, calm) in
    let users =
      λ (d : Channel). total-remove (uses d) s.next_id id contract s.running fresh found in
    let holders = total-remove holds s.next_id id contract s.running fresh found in
    (
      remove-Fresh s.next_id id s.running fresh,
      (λ d. counted d ∙ ap pos (sym (users d))),
      (λ d shut. ground (arith, users d, unused d shut)),
      unsubscribe-count contract.subscribed s.subscriptions (total holds (remove id s.running))
          (subscribed ∙ sym holders),
      calm,
      open_channel id contract s found h,
    )

pub finish-Consistent :
    (hex_address : Address → Text) (hex_hash : Hash → Text) (id : ℕ) (contract : ContractInfo)
    (s : Indexer)
    → lookup id s.running ≡ some contract
    → Consistent s
    → Consistent (finish hex_address hex_hash id contract s)
unfolding finish
finish-Consistent hex_address hex_hash id contract s found h =
    release-Consistent contract.event_chan _ (
      finish-Owing id contract
        (forget hex_address hex_hash id (key_of hex_address hex_hash contract) s.contracts) s found
        h)

turn-Consistent :
    (hex_address : Address → Text) (hex_hash : Hash → Text) (id : ℕ) (contract : ContractInfo)
    (event : LoopEvent) (s : Indexer)
    → lookup id s.running ≡ some contract
    → Consistent s
    → Consistent (turn hex_address hex_hash id contract event s)
unfolding turn
turn-Consistent hex_address hex_hash id contract exit s found h =
    if-preserves Consistent (done contract s) _ _
      (λ e. finish-Consistent hex_address hex_hash id contract s found h) (λ e. h)
turn-Consistent hex_address hex_hash id contract retry_accepted s found h =
    take_retry-Consistent id contract none s found h
turn-Consistent hex_address hex_hash id contract (retry_refused e) s found h =
    take_retry-Consistent id contract (some e) s found h
turn-Consistent hex_address hex_hash id contract (failed e) s found h =
    lose_subscription-Consistent id contract e s found h
turn-Consistent hex_address hex_hash id contract (received raw) s found h =
    forward-Consistent id contract raw s found h
turn-Consistent hex_address hex_hash id contract (dropped raw) s found h =
    if-preserves Consistent (contract.subscribed && done contract s) _ _
      (λ e. finish-Consistent hex_address hex_hash id contract s found h) (λ e. h)

-- A turn of a goroutine keeps the bookkeeping.
pub process_logs-Consistent :
    (hex_address : Address → Text) (hex_hash : Hash → Text) (id : ℕ) (event : LoopEvent)
    (s : Indexer)
    → Consistent s
    → Consistent (process_logs hex_address hex_hash id event s)
unfolding process_logs
process_logs-Consistent hex_address hex_hash id event s h =
    elim (Option-cases (lookup id s.running)) [
      | inl absent ↦ rw absent h
      | inr (contract, found) ↦
          rw found (turn-Consistent hex_address hex_hash id contract event s found h)
    ]
