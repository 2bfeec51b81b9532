-- ===== src/Prelude/Maps.antt =====
-- Go maps as association lists. The order of the entries stands for the order of one iteration.
use mathlib.Core.Path.{◌≡◌, refl}
use mathlib.Core.List.{List, [], ◌∷◌}
use mathlib.Core.Option.{Option, none, some}
use native.Mathlib.Omega.{arith}
use superform_go_utils.Prelude.Tests.{if◌then◌else◌, Eq, ◌==◌}

abbrev pub Assoc : Type 0 → Type 0 → Type 0
Assoc K V = List (K × V)

module _ {K V : Type 0} ⦃e : Eq K⦄ where
  -- entries[k] = v
  unfoldable pub insert : K → V → Assoc K V → Assoc K V
  insert k v [] = (k, v) ∷ []
  insert k v ((j, old) ∷ entries) =
      if j == k then (k, v) ∷ entries else (j, old) ∷ insert k v entries

  -- delete(entries, k)
  unfoldable pub remove : K → Assoc K V → Assoc K V
  remove k [] = []
  remove k ((j, old) ∷ entries) = if j == k then remove k entries else (j, old) ∷ remove k entries

  -- entries[k]
  unfoldable pub lookup : K → Assoc K V → Option V
  lookup k [] = none
  lookup k ((j, v) ∷ entries) = if j == k then some v else lookup k entries

  pub lookup-insert :
      (k j : K) (v : V) (entries : Assoc K V)
      → lookup j (insert k v entries) ≡ (if k == j then some v else lookup j entries)
  unfolding lookup insert
  lookup-insert k j v [] = refl
  lookup-insert k j v ((i, old) ∷ entries) =
      ground (arith, e.same_iff k j, e.same_iff i k, e.same_iff i j, lookup-insert k j v entries)

  pub lookup-remove :
      (k j : K) (entries : Assoc K V)
      → lookup j (remove k entries) ≡ (if k == j then none else lookup j entries)
  unfolding lookup remove
  lookup-remove k j [] = ground arith
  lookup-remove k j ((i, old) ∷ entries) =
      ground (arith, e.same_iff k j, e.same_iff i k, e.same_iff i j, lookup-remove k j entries)
