-- ===== src/Prelude/Ordered.antt =====
-- What a stable sort gives: the elements of the list, none of them after one that it precedes.
use Prim.Native.Nat.{ℕ, zero, suc, compare, Ordering}
use Prim.Native.Nat.compare
use mathlib.Core.Path.{◌≡◌, refl, sym, ap, ◌∙◌}
use mathlib.Core.Bool.{true, false}
use mathlib.Core.List.{List, [], ◌∷◌, Permᴰ}
use mathlib.Core.List.Permᴰ
use mathlib.Core.Logic.{inl, inr}
use superform_go_utils.Prelude.Tests.{Bool-cases}
use superform_go_utils.Prelude.Texts.{Text, compare_text}
use superform_go_utils.Prelude.Sort.{then_by, is_gt, insert_sorted, sort_stable}

abbrev pub flip : Ordering → Ordering
flip Ordering.lt = Ordering.gt
flip Ordering.eq = Ordering.eq
flip Ordering.gt = Ordering.lt

-- The comparison of two elements in the other order is the opposite one.
abbrev pub Antisymmetric : {A : Type 0} → (A → A → Ordering) → Type 0
Antisymmetric {A} cmp = (a b : A) → cmp b a ≡ flip (cmp a b)

pub compare-flip : (a b : ℕ) → compare b a ≡ flip (compare a b)
compare-flip zero zero = refl
compare-flip zero (suc b) = compare.suc-zero b ∙ sym (ap flip (compare.zero-suc b))
compare-flip (suc a) zero = compare.zero-suc a ∙ sym (ap flip (compare.suc-zero a))
compare-flip (suc a) (suc b) =
    compare.suc-suc b a ∙ compare-flip a b ∙ sym (ap flip (compare.suc-suc a b))

then_by-flip : (a b : Ordering) → then_by (flip a) (flip b) ≡ flip (then_by a b)
then_by-flip Ordering.lt b = refl
then_by-flip Ordering.eq b = refl
then_by-flip Ordering.gt b = refl

pub then_by-flipped :
    (a b : Ordering) {back_a back_b : Ordering}
    → back_a ≡ flip a
    → back_b ≡ flip b
    → then_by back_a back_b ≡ flip (then_by a b)
then_by-flipped a b {back_b = back_b} e f =
    ap (λ k. then_by k back_b) e ∙ ap (then_by (flip a)) f ∙ then_by-flip a b

-- A step of the comparison of texts.
text_step :
    (o rest back : Ordering)
    → back ≡ flip rest
    → (elim (flip o) as (λ x. Ordering) [
      | Ordering.lt ↦ Ordering.lt
      | Ordering.eq ↦ back
      | Ordering.gt ↦ Ordering.gt
    ])
      ≡ flip (elim o as (λ x. Ordering) [
        | Ordering.lt ↦ Ordering.lt
        | Ordering.eq ↦ rest
        | Ordering.gt ↦ Ordering.gt
      ])
text_step Ordering.lt rest back e = refl
text_step Ordering.eq rest back e = e
text_step Ordering.gt rest back e = refl

pub compare_text-flip : (a b : Text) → compare_text b a ≡ flip (compare_text a b)
unfolding compare_text
compare_text-flip [] [] = refl
compare_text-flip [] (b ∷ bs) = refl
compare_text-flip (a ∷ as') [] = refl
compare_text-flip (a ∷ as') (b ∷ bs) =
    rw (compare-flip a b, compare_text)
      (text_step (compare a b) (compare_text as' bs) (compare_text bs as')
        (compare_text-flip as' bs))

not_both : (o : Ordering) → is_gt o ≡ true → is_gt (flip o) ≡ false
not_both Ordering.lt e = cc
not_both Ordering.eq e = refl
not_both Ordering.gt e = refl

module _ {A : Type 0} (cmp : A → A → Ordering) where
  abbrev pub Heads : A → List A → Type 0
  Heads x [] = Unit
  Heads x (y ∷ ys) = is_gt (cmp x y) ≡ false

  -- No element stands right after one that it precedes.
  abbrev pub Ordered : List A → Type 0
  Ordered [] = Unit
  Ordered (x ∷ xs) = Heads x xs × Ordered xs

  insert_sorted-Heads :
      (y x : A) (ys : List A)
      → is_gt (cmp y x) ≡ false
      → Heads y ys
      → Heads y (insert_sorted cmp x ys)
  unfolding insert_sorted
  insert_sorted-Heads y x [] h k = h
  insert_sorted-Heads y x (z ∷ zs) h k = elim (Bool-cases (is_gt (cmp x z))) [
    | inl e ↦ rw e k
    | inr e ↦ rw e h
  ]

  insert_sorted-Ordered :
      Antisymmetric cmp → (x : A) (ys : List A) → Ordered ys → Ordered (insert_sorted cmp x ys)
  unfolding insert_sorted
  insert_sorted-Ordered anti x [] h = (tt, tt)
  insert_sorted-Ordered anti x (y ∷ ys) h = elim (Bool-cases (is_gt (cmp x y))) [
    | inl e ↦
        let back : is_gt (cmp y x) ≡ false = ap is_gt (anti x y) ∙ not_both (cmp x y) e in
        rw e (insert_sorted-Heads y x ys back h.0, insert_sorted-Ordered anti x ys h.1)
    | inr e ↦ rw e (e, h)
  ]

  pub sort_stable-Ordered : Antisymmetric cmp → (xs : List A) → Ordered (sort_stable cmp xs)
  unfolding sort_stable
  sort_stable-Ordered anti [] = tt
  sort_stable-Ordered anti (x ∷ xs) =
      insert_sorted-Ordered anti x (sort_stable cmp xs) (sort_stable-Ordered anti xs)

  insert_sorted-Permᴰ : (x : A) (ys : List A) → Permᴰ (insert_sorted cmp x ys) (x ∷ ys)
  unfolding insert_sorted
  insert_sorted-Permᴰ x [] = Permᴰ.cons refl Permᴰ.nil
  insert_sorted-Permᴰ x (y ∷ ys) = elim (Bool-cases (is_gt (cmp x y))) [
    | inl e ↦ rw e (Permᴰ.trans (Permᴰ.cons refl (insert_sorted-Permᴰ x ys)) (Permᴰ.swap refl refl))
    | inr e ↦ rw e (Permᴰ.refl (x ∷ y ∷ ys))
  ]

  pub sort_stable-Permᴰ : (xs : List A) → Permᴰ (sort_stable cmp xs) xs
  unfolding sort_stable
  sort_stable-Permᴰ [] = Permᴰ.nil
  sort_stable-Permᴰ (x ∷ xs) =
      Permᴰ.trans (insert_sorted-Permᴰ x (sort_stable cmp xs))
        (Permᴰ.cons refl (sort_stable-Permᴰ xs))
