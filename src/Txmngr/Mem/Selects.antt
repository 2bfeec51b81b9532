-- ===== src/Txmngr/Mem/Selects.antt =====
-- What a query of the queue returns (evm/txmngr/txmngr_provider/mem/tx.go).
use Prim.Native.Nat.{Ordering}
use mathlib.Core.List.{Permᴰ}
use mathlib.Core.List.Permᴰ
use superform_go_utils.Prelude.{
  ℕ, zero, suc, Bool, true, false, ◌&&◌, List, [], ◌∷◌, map, Text, ltb, Assoc, length, take, ◌≡◌,
  refl, sym, ap, subst, none, some, arith, Bool-cases, inl, inr, if◌then◌else◌, filterb,
}
use superform_go_utils.Prelude.Ordered.{
  Antisymmetric, compare-flip, compare_text-flip, then_by-flipped, Ordered, sort_stable-Ordered,
  sort_stable-Permᴰ,
}
use superform_go_utils.Txmngr.Types.{Transaction}
use superform_go_utils.Txmngr.Mem.Query.{
  Query, TxOrder, order_none, order_next_action, order_lane_work, order_next_notification, passes,
  matching, sorted, limited, select, compare_schedule_order, compare_assigned_nonce,
  compare_lane_work, compare_next_notification,
}

-- The comparison that an order stands for; without one, no row precedes another.
abbrev pub comparison : TxOrder → Transaction → Transaction → Ordering
comparison order_none a b = Ordering.eq
comparison order_next_action a b = compare_schedule_order a b
comparison order_lane_work a b = compare_lane_work a b
comparison order_next_notification a b = compare_next_notification a b

-- A row that no filter refuses.
abbrev pub kept_by : List (Transaction → Bool) → Transaction → Bool
kept_by [] tx = true
kept_by (f ∷ rest) tx = if f tx then kept_by rest tx else false

-- The rows of the queue.
abbrev pub rows_of : Assoc Text Transaction → List Transaction
rows_of txs = map (λ e. e.1) txs

-- The first rows, as many as the limit; a limit of 0 is none.
abbrev pub first_rows : ℕ → List Transaction → List Transaction
first_rows zero rows = rows
first_rows (suc n) rows = take (suc n) rows

passes-kept_by :
    (filters : List (Transaction → Bool)) (tx : Transaction)
    → passes filters tx ≡ kept_by filters tx
unfolding passes
passes-kept_by [] tx = refl
passes-kept_by (f ∷ rest) tx = ground (arith, passes-kept_by rest tx)

matching-filterb :
    (filters : List (Transaction → Bool)) (txs : Assoc Text Transaction)
    → matching filters txs ≡ filterb (kept_by filters) (rows_of txs)
unfolding matching
matching-filterb filters [] = refl
matching-filterb filters ((id, tx) ∷ rest) =
    rw (passes-kept_by filters tx, matching-filterb filters rest) refl

compare_schedule_order-flip : Antisymmetric compare_schedule_order
unfolding compare_schedule_order
compare_schedule_order-flip a b =
    then_by-flipped _ _ (compare-flip a.next_action_at b.next_action_at)
      (then_by-flipped _ _ (compare-flip a.created_at b.created_at) (compare_text-flip a.id b.id))

compare_assigned_nonce-flip : Antisymmetric compare_assigned_nonce
unfolding compare_assigned_nonce
compare_assigned_nonce-flip none none = refl
compare_assigned_nonce-flip none (some b) = refl
compare_assigned_nonce-flip (some a) none = refl
compare_assigned_nonce-flip (some a) (some b) = compare-flip a b

comparison-Antisymmetric : (o : TxOrder) → Antisymmetric (comparison o)
unfolding compare_lane_work compare_next_notification
comparison-Antisymmetric order_none a b = refl
comparison-Antisymmetric order_next_action a b = compare_schedule_order-flip a b
comparison-Antisymmetric order_lane_work a b =
    then_by-flipped _ _ (compare_assigned_nonce-flip a.assigned_nonce b.assigned_nonce)
      (compare_schedule_order-flip a b)
comparison-Antisymmetric order_next_notification a b =
    then_by-flipped _ _ (compare-flip a.next_notification_at b.next_notification_at)
      (compare_text-flip a.id b.id)

any_order : (rows : List Transaction) → Ordered (comparison order_none) rows
any_order [] = tt
any_order (x ∷ []) = (tt, tt)
any_order (x ∷ y ∷ rest) = (refl, any_order (y ∷ rest))

sorted-Ordered : (o : TxOrder) (rows : List Transaction) → Ordered (comparison o) (sorted o rows)
unfolding sorted
sorted-Ordered order_none rows = any_order rows
sorted-Ordered order_next_action rows =
    sort_stable-Ordered _ (comparison-Antisymmetric order_next_action) rows
sorted-Ordered order_lane_work rows =
    sort_stable-Ordered _ (comparison-Antisymmetric order_lane_work) rows
sorted-Ordered order_next_notification rows =
    sort_stable-Ordered _ (comparison-Antisymmetric order_next_notification) rows

sorted-Permᴰ : (o : TxOrder) (rows : List Transaction) → Permᴰ (sorted o rows) rows
unfolding sorted
sorted-Permᴰ order_none rows = Permᴰ.refl rows
sorted-Permᴰ order_next_action rows = sort_stable-Permᴰ _ rows
sorted-Permᴰ order_lane_work rows = sort_stable-Permᴰ _ rows
sorted-Permᴰ order_next_notification rows = sort_stable-Permᴰ _ rows

take_all : (n : ℕ) (rows : List Transaction) → ltb n (length rows) ≡ false → take n rows ≡ rows
take_all zero [] h = refl
take_all zero (x ∷ rest) h = absurd (ground arith)
take_all (suc n) [] h = refl
take_all (suc n) (x ∷ rest) h = ap (◌∷◌ x) (take_all n rest (ground arith))

limited-first_rows : (n : ℕ) (rows : List Transaction) → limited n rows ≡ first_rows n rows
unfolding limited
limited-first_rows zero rows = refl
limited-first_rows (suc n) rows = elim (Bool-cases (ltb (suc n) (length rows))) [
  | inl e ↦
      let both : (ltb 0 (suc n) && ltb (suc n) (length rows)) ≡ true = ground arith in rw both refl
  | inr e ↦
      let both : (ltb 0 (suc n) && ltb (suc n) (length rows)) ≡ false = ground arith in
      rw both (sym (take_all (suc n) rows e))
]

-- A query returns the first rows, as many as its limit allows, of a list that holds each row of the
-- queue that no filter of the query refuses as often as the queue does and nothing else, and in which
-- no row stands right after one that the order of the query puts behind it.
pub select_rows :
    (q : Query) (txs : Assoc Text Transaction)
    → (rows : List Transaction) × Permᴰ rows (filterb (kept_by q.filters) (rows_of txs))
      × Ordered (comparison q.order_by) rows
      × (select q txs ≡ first_rows q.limit rows)
unfolding select
select_rows q txs =
    let rows = sorted q.order_by (matching q.filters txs) in
    (
      rows,
      subst (λ (kept : List Transaction). Permᴰ rows kept) (matching-filterb q.filters txs)
          (sorted-Permᴰ q.order_by (matching q.filters txs)),
      sorted-Ordered q.order_by (matching q.filters txs),
      limited-first_rows q.limit rows,
    )
