-- ===== src/Txmngr/Batch/Rounds.antt =====
-- The chains that consecutive passes select: `nextWorkChainIDs` of evm/txmngr/txmngr.go, run over and
-- over with the index that it hands on.
use native.Mathlib.Nat.{mod-lt, mod-mod, mod-add-mod, mul-zero}
use superform_go_utils.Prelude.{
  ℕ, zero, suc, ◌+◌, ◌*◌, ◌%◌, false, ◌||◌, List, [], ◌∷◌, ◌++◌, some, ◌==◌, nat_eq, length, min,
  get_elem?, ◌≡◌, refl, ap, sym, ◌∙◌, ◌<◌, arith, compare,
}
use superform_go_utils.Prelude.Sort.{length-sort_stable}
use superform_go_utils.Txmngr.Batch.{next_work_chain_ids, select_round, sorted_ids, at_or_zero}

length-select_round :
    (ids : List ℕ) (start rounds : ℕ) → length (select_round ids start rounds) ≡ rounds
unfolding select_round
length-select_round ids start zero = refl
length-select_round ids start (suc rounds) = ap suc (length-select_round ids (start + 1) rounds)

-- Only the start's place in the ring counts.
select_round-mod :
    (ids : List ℕ) (a b rounds : ℕ)
    → a % length ids ≡ b % length ids
    → select_round ids a rounds ≡ select_round ids b rounds
unfolding select_round
select_round-mod ids a b zero e = refl
select_round-mod ids a b (suc rounds) e =
    let next : (a + 1) % length ids ≡ (b + 1) % length ids =
      sym (mod-add-mod a (length ids) 1)
      ∙ ap (λ k. (k + 1) % length ids) e
      ∙ mod-add-mod b (length ids) 1 in
    rw (e, select_round-mod ids (a + 1) (b + 1) rounds next) refl

select_round-add :
    (ids : List ℕ) (start a b : ℕ)
    → select_round ids start (a + b) ≡ select_round ids start a ++ select_round ids (start + a) b
unfolding select_round
select_round-add ids start zero b =
    ap (λ k. select_round ids start k) {x = 0 + b} {y = b} (omega arith)
    ∙ ap (λ k. select_round ids k b) {x = start} {y = start + 0} (omega arith)
select_round-add ids start (suc a) b =
    let same : (start + 1) + a ≡ start + suc a = omega arith in
    ap (λ k. select_round ids start k) {x = suc a + b} {y = suc (a + b)} (omega arith)
    ∙ (ap (◌∷◌ (at_or_zero (get_elem? ids (start % length ids)))) (
        select_round-add ids (start + 1) a b
        ∙ ap (λ k. select_round ids (start + 1) a ++ select_round ids k b) same))

some_element :
    (ids : List ℕ) (i : ℕ) → i < length ids → some (at_or_zero (get_elem? ids i)) ≡ get_elem? ids i
some_element [] i h = absurd (omega arith)
some_element (x ∷ xs) zero h = refl
some_element (x ∷ xs) (suc i) h = some_element xs i (omega arith)

get_elem?-select_round :
    (ids : List ℕ) (start rounds i : ℕ)
    → 0 < length ids
    → i < rounds
    → get_elem? (select_round ids start rounds) i ≡ get_elem? ids ((start + i) % length ids)
unfolding select_round
get_elem?-select_round ids start zero i some_id h = absurd (omega arith)
get_elem?-select_round ids start (suc rounds) zero some_id h =
    some_element ids (start % length ids) (mod-lt start some_id)
    ∙ ap (λ k. get_elem? ids (k % length ids)) (omega arith)
get_elem?-select_round ids start (suc rounds) (suc i) some_id h =
    let same : (start + 1) + i ≡ start + suc i = omega arith in
    get_elem?-select_round ids (start + 1) rounds i some_id (omega arith)
    ∙ ap (λ k. get_elem? ids (k % length ids)) same

-- The chains that a number of passes selects, one pass after the other, each with the index that the
-- pass before gave it.
abbrev pub selected_over : ℕ → List ℕ → ℕ → ℕ → List ℕ
selected_over zero client_ids limit index = []
selected_over (suc passes) client_ids limit index =
    let (ids, next) = next_work_chain_ids client_ids limit index in
    ids ++ selected_over passes client_ids limit next

selected_over-select_round :
    (client_ids : List ℕ) (limit passes index : ℕ)
    → 0 < length client_ids
    → 0 < limit
    → selected_over passes client_ids limit index
      ≡ select_round (sorted_ids client_ids) index (passes * min limit (length client_ids))
unfolding next_work_chain_ids sorted_ids select_round
selected_over-select_round client_ids limit zero index some_client some_limit =
    ap (λ k. select_round (sorted_ids client_ids) index k) {x = 0}
      {y = 0 * min limit (length client_ids)} (omega arith)
selected_over-select_round client_ids limit (suc passes) index some_client some_limit =
    let ids = sorted_ids client_ids in
    let n = length client_ids in
    let count = min limit n in
    let same : length ids ≡ n = length-sort_stable compare client_ids in
    let busy : (n == 0 || limit == 0) ≡ false = ground arith in
    let ring : (a : ℕ) → a % n % length ids ≡ a % length ids =
      λ a. ap (λ k. a % k % length ids) (sym same) ∙ mod-mod a (length ids) in
    let next : ((index % n + count) % n) % length ids ≡ (index + count) % length ids =
      ring (index % n + count)
      ∙ ap (λ k. (index % k + count) % length ids) (sym same)
      ∙ mod-add-mod index (length ids) count in
    let rest =
      selected_over-select_round client_ids limit passes ((index % n + count) % n) some_client
        some_limit in
    rw (same, busy)
      (ap (λ xs. select_round ids (index % n) count ++ xs)
          (rest
            ∙ select_round-mod ids ((index % n + count) % n) (index + count) (passes * count) next)
        ∙ ap (λ xs. xs ++ select_round ids (index + count) (passes * count))
            (select_round-mod ids (index % n) index count (ring index))
        ∙ sym (select_round-add ids index count (passes * count))
        ∙ ap (λ k. select_round ids index k) {x = count + passes * count} {y = suc passes * count}
            (omega arith))

-- Consecutive passes over the chains with a client, each started at the index that the pass before
-- handed on, select as many chains as the limit and the clients allow, and go round the sorted chain
-- ids without a skip or a repetition: the i-th chain that they select, counted over all of them,
-- stands i places after the first index in the ring of the ids.
pub selected_over-round_robin :
    (client_ids : List ℕ) (limit passes index i : ℕ)
    → i < passes * min limit (length client_ids)
    → (length (selected_over passes client_ids limit index)
        ≡ passes * min limit (length client_ids))
      × (get_elem? (selected_over passes client_ids limit index) i
          ≡ get_elem? (sorted_ids client_ids) ((index + i) % length client_ids))
unfolding sorted_ids
selected_over-round_robin client_ids limit passes index i in_range =
    let some_work : 0 < min limit (length client_ids) = positive passes _ i in_range in
    let some_client : 0 < length client_ids = omega (arith, some_work) in
    let some_limit : 0 < limit = omega (arith, some_work) in
    let ids = sorted_ids client_ids in
    let same : length ids ≡ length client_ids = length-sort_stable compare client_ids in
    let count = passes * min limit (length client_ids) in
    let some_id : 0 < length ids = omega (arith, same, some_client) in
    rw (selected_over-select_round client_ids limit passes index some_client some_limit) (
      length-select_round ids index count,
      get_elem?-select_round ids index count i some_id in_range
          ∙ ap (λ k. get_elem? ids ((index + i) % k)) same,
    )
  where
    positive : (a b j : ℕ) → j < a * b → 0 < b
    positive a zero j h = absurd (omega (arith, h, mul-zero a))
    positive a (suc b) j h = omega arith
