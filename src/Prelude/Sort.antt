-- ===== src/Prelude/Sort.antt =====
-- `slices.SortStableFunc` by its documented result: a stable sort by a three-way comparison.
use Prim.Native.Nat.{suc, Ordering}
use mathlib.Core.Path.{◌≡◌, refl}
use native.Mathlib.Omega.{arith}
use superform_go_utils.Prelude.Lists.{length}
use mathlib.Core.Bool.{Bool, true, false}
use mathlib.Core.List.{List, [], ◌∷◌}
use superform_go_utils.Prelude.Tests.{if◌then◌else◌}

-- `cmp.Or` on comparison results: the first that is not 0.
abbrev pub then_by : Ordering → Ordering → Ordering
then_by Ordering.eq b = b
then_by Ordering.lt b = Ordering.lt
then_by Ordering.gt b = Ordering.gt

abbrev pub is_gt : Ordering → Bool
is_gt Ordering.gt = true
is_gt _ = false

module _ {A : Type 0} (cmp : A → A → Ordering) where
  unfoldable pub insert_sorted : A → List A → List A
  insert_sorted x [] = x ∷ []
  insert_sorted x (y ∷ ys) =
      let later = insert_sorted x ys in if is_gt (cmp x y) then y ∷ later else x ∷ y ∷ ys

  unfoldable pub sort_stable : List A → List A
  unfolding insert_sorted
  sort_stable [] = []
  sort_stable (x ∷ xs) = insert_sorted x (sort_stable xs)

  pub length-insert_sorted : (x : A) (xs : List A) → length (insert_sorted x xs) ≡ suc (length xs)
  unfolding insert_sorted
  length-insert_sorted x [] = refl
  length-insert_sorted x (y ∷ ys) = ground (arith, length-insert_sorted x ys)

  pub length-sort_stable : (xs : List A) → length (sort_stable xs) ≡ length xs
  unfolding sort_stable
  length-sort_stable [] = refl
  length-sort_stable (x ∷ xs) =
      omega (arith, length-sort_stable xs, length-insert_sorted x (sort_stable xs))
