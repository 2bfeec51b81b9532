-- ===== src/Prelude/BigInt.antt =====
-- `math/big`: reading a number in base 10 and the bounds on its bits.
use superform_go_utils.Prelude.Tests.{if◌then◌else◌, leb, nat_beq}
use superform_go_utils.Prelude.Lists.{length}
use superform_go_utils.Prelude.Texts.{Text, decimal}
use superform_go_utils.Prelude.Int.{ℤ, pos, signed}
use superform_go_utils.Prelude.Decimals.{
  all_digits, all_of, value_from, value_from-decimal, all_digits-decimal, length-decimal,
  StartsPositive, decimal-StartsPositive,
}
use Prim.Native.Nat.{ℕ, ◌-◌, ◌≤◌, ◌<◌, ◌^◌}
use mathlib.Core.Path.{◌≡◌, refl, ap, ◌∙◌}
use mathlib.Core.Bool.{Bool, true, false}
use mathlib.Core.List.{[], ◌∷◌}
use mathlib.Core.Option.{Option, none, some}
use native.Mathlib.Omega.{arith}

abbrev digits_of : Bool → Text → Option ℤ
digits_of negative [] = none
digits_of negative (c ∷ cs) =
    if all_digits (c ∷ cs) then some (signed negative (value_from 0 (c ∷ cs))) else none

-- `SetString(s, 10)`: one sign, then at least one digit, and nothing else.
unfoldable pub set_string : Text → Option ℤ
set_string [] = none
set_string (c ∷ cs) =
    if nat_beq c b'-'
    then digits_of true cs
    else if nat_beq c b'+'
    then digits_of false cs
    else digits_of false (c ∷ cs)

unfoldable pub max_uint256 : ℕ
max_uint256 = 2 ^ 256 - 1

-- `BitLen() <= 256` of a number that is not negative.
abbrev pub fits_uint256 : ℕ → Bool
fits_uint256 n = leb n max_uint256

set_string_digits :
    (c : ℕ) (cs : Text)
    → all_digits (c ∷ cs) ≡ true
    → set_string (c ∷ cs) ≡ some (pos (value_from 0 (c ∷ cs)))
unfolding set_string all_of
set_string_digits c cs h =
    let minus : nat_beq c b'-' ≡ false = ground arith in
    let plus : nat_beq c b'+' ≡ false = ground arith in rw (minus, plus, h) refl

pub set_string_nonempty :
    (s : Text) → all_digits s ≡ true → 0 < length s → set_string s ≡ some (pos (value_from 0 s))
set_string_nonempty [] h p = absurd (ground arith)
set_string_nonempty (c ∷ cs) h p = set_string_digits c cs h

some_byte : (s : Text) → StartsPositive s → 0 < length s
some_byte [] h = absurd h
some_byte (c ∷ cs) h = omega arith

-- Printing and reading back a positive number.
pub set_string-decimal : (n : ℕ) → 0 < n → set_string (decimal n) ≡ some (pos n)
set_string-decimal n p =
    set_string_nonempty (decimal n) (all_digits-decimal n)
      (some_byte (decimal n) (decimal-StartsPositive n p))
    ∙ ap (λ v. some (pos v)) (value_from-decimal n)

-- A uint256 has at most 78 digits.
pub length-decimal_uint256 : (n : ℕ) → fits_uint256 n ≡ true → length (decimal n) ≤ 78
unfolding max_uint256
length-decimal_uint256 n h = length-decimal 77 n (ground arith)
