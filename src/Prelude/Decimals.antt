-- ===== src/Prelude/Decimals.antt =====
-- Numbers as decimal text: `big.Int.String` and `big.Int.SetString` in base 10, over digits.
use superform_go_utils.Prelude.Tests.{ltb, leb, Bool-cases}
use superform_go_utils.Prelude.Lists.{length, replicate}
use superform_go_utils.Prelude.Texts.{Text, digits_up, reverse_onto, decimal}
use Prim.Native.Nat.{ℕ, zero, suc, ◌+◌, ◌-◌, ◌*◌, ◌/◌, ◌%◌, ◌≤◌, ◌<◌}
use mathlib.Core.Path.{◌≡◌, refl, ap, ◌∙◌}
use mathlib.Core.Logic.{inl, inr}
use mathlib.Core.Bool.{Bool, true, ◌&&◌}
use mathlib.Core.List.{[], ◌∷◌, ◌++◌}
use native.Mathlib.Omega.{arith}

abbrev pub is_digit : ℕ → Bool
is_digit c = leb b'0' c && leb c b'9'

-- Every byte passes a test.
unfoldable pub all_of : (ℕ → Bool) → Text → Bool
all_of p [] = true
all_of p (c ∷ cs) = p c && all_of p cs

abbrev pub all_digits : Text → Bool
all_digits = all_of is_digit

-- The number that digits stand for, behind the digits read so far.
unfoldable pub value_from : ℕ → Text → ℕ
value_from acc [] = acc
value_from acc (c ∷ cs) = value_from (acc * 10 + (c - b'0')) cs

-- The value of digits, least significant first.
low_value : Text → ℕ
low_value [] = 0
low_value (c ∷ cs) = (c - b'0') + 10 * low_value cs

value_from-reverse_onto :
    (s t : Text) → value_from 0 (reverse_onto s t) ≡ value_from (low_value s) t
unfolding value_from reverse_onto low_value
value_from-reverse_onto [] t = refl
value_from-reverse_onto (c ∷ cs) t =
    value_from-reverse_onto cs (c ∷ t) ∙ ap (λ n. value_from n t) (omega arith)

low_value-digits_up : (f n : ℕ) → n < f → low_value (digits_up f n) ≡ n
unfolding low_value digits_up
low_value-digits_up zero n h = absurd (ground arith)
low_value-digits_up (suc f) n h = ground (arith, low_value-digits_up f (n / 10))

-- Printing and reading back.
pub value_from-decimal : (n : ℕ) → value_from 0 (decimal n) ≡ n
unfolding decimal value_from
value_from-decimal n =
    value_from-reverse_onto (digits_up (suc n) n) [] ∙ low_value-digits_up (suc n) n (omega arith)

pub all_of-reverse_onto :
    (p : ℕ → Bool) (s t : Text)
    → all_of p s ≡ true
    → all_of p t ≡ true
    → all_of p (reverse_onto s t) ≡ true
unfolding all_of reverse_onto
all_of-reverse_onto p [] t hs ht = ht
all_of-reverse_onto p (c ∷ cs) t hs ht =
    all_of-reverse_onto p cs (c ∷ t) (ground arith) (ground arith)

pub all_of-append : (p : ℕ → Bool) (s t : Text) → all_of p (s ++ t) ≡ (all_of p s && all_of p t)
unfolding all_of
all_of-append p [] t = refl
all_of-append p (c ∷ cs) t = ground (arith, all_of-append p cs t)

pub all_of-weaken :
    (p q : ℕ → Bool) (s : Text)
    → ((c : ℕ) → p c ≡ true → q c ≡ true)
    → all_of p s ≡ true
    → all_of q s ≡ true
unfolding all_of
all_of-weaken p q [] h e = refl
all_of-weaken p q (c ∷ cs) h e = ground (arith, h c, all_of-weaken p q cs h)

pub all_of-replicate : (p : ℕ → Bool) (n c : ℕ) → p c ≡ true → all_of p (replicate n c) ≡ true
unfolding all_of
all_of-replicate p zero c h = refl
all_of-replicate p (suc n) c h = ground (arith, all_of-replicate p n c h)

pub value_from-append :
    (acc : ℕ) (s t : Text) → value_from acc (s ++ t) ≡ value_from (value_from acc s) t
unfolding value_from
value_from-append acc [] t = refl
value_from-append acc (c ∷ cs) t = value_from-append (acc * 10 + (c - b'0')) cs t

-- Leading zeros change nothing.
pub value_from-zeros : (n : ℕ) (t : Text) → value_from 0 (replicate n b'0' ++ t) ≡ value_from 0 t
unfolding value_from
value_from-zeros zero t = refl
value_from-zeros (suc n) t = value_from-zeros n t

all_digits-digits_up : (f n : ℕ) → all_digits (digits_up f n) ≡ true
unfolding all_of digits_up
all_digits-digits_up zero n = refl
all_digits-digits_up (suc f) n = ground (arith, all_digits-digits_up f (n / 10))

pub all_digits-decimal : (n : ℕ) → all_digits (decimal n) ≡ true
unfolding decimal all_of
all_digits-decimal n =
    all_of-reverse_onto is_digit (digits_up (suc n) n) [] (all_digits-digits_up (suc n) n) refl

pub length-reverse_onto : (s t : Text) → length (reverse_onto s t) ≡ length s + length t
unfolding reverse_onto
length-reverse_onto [] t = omega arith
length-reverse_onto (c ∷ cs) t = omega (arith, length-reverse_onto cs (c ∷ t))

abbrev pub ten_to : ℕ → ℕ
ten_to zero = 1
ten_to (suc k) = 10 * ten_to k

length-digits_up : (f k n : ℕ) → n < ten_to (suc k) → length (digits_up f n) ≤ suc k
unfolding digits_up
length-digits_up zero k n h = ground arith
length-digits_up (suc f) zero n h = ground arith
length-digits_up (suc f) (suc k) n h = ground (arith, length-digits_up f k (n / 10))

-- A number below a power of ten has no more digits than that power.
pub length-decimal : (k n : ℕ) → n < ten_to (suc k) → length (decimal n) ≤ suc k
unfolding decimal
length-decimal k n h =
    omega (arith, length-reverse_onto (digits_up (suc n) n) [], length-digits_up (suc n) k n h)

-- The text begins with a digit other than 0.
abbrev pub StartsPositive : Text → Type 0
StartsPositive [] = ⊥
StartsPositive (c ∷ cs) = (b'0' < c) × (c ≤ b'9')

reverse_onto-digits_up-StartsPositive :
    (f n : ℕ) (t : Text) → 0 < n → n < f → StartsPositive (reverse_onto (digits_up f n) t)
unfolding digits_up reverse_onto
reverse_onto-digits_up-StartsPositive zero n t p h = absurd (ground arith)
reverse_onto-digits_up-StartsPositive (suc f) n t p h = elim (Bool-cases (ltb n 10)) [
  | inl small ↦ rw small (ground arith)
  | inr large ↦ rw large (
      reverse_onto-digits_up-StartsPositive f (n / 10) ((b'0' + n % 10) ∷ t) (ground arith)
        (ground arith))
]

-- A positive number is printed with no leading zero.
pub decimal-StartsPositive : (n : ℕ) → 0 < n → StartsPositive (decimal n)
unfolding decimal
decimal-StartsPositive n p = reverse_onto-digits_up-StartsPositive (suc n) n [] p (omega arith)

pub reverse_onto_twice :
    (s t u : Text) → reverse_onto (reverse_onto s t) u ≡ reverse_onto t (s ++ u)
unfolding reverse_onto
reverse_onto_twice [] t u = refl
reverse_onto_twice (c ∷ cs) t u = reverse_onto_twice cs (c ∷ t) u
