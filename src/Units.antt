-- ===== src/Units.antt =====
-- Token amounts in base units: utils/units/units.go. A nil amount is `none`. The conversions through
-- `float64` and `big.Rat` are not modelled.
pub mod RoundTrip
pub mod Bps
mod Tests
use superform_go_utils.Prelude.{
  ℕ, zero, suc, ◌+◌, ◌-◌, ◌*◌, ◌/◌, ◌^◌, Bool, true, false, ◌&&◌, ◌||◌, not, List, [], ◌∷◌, ◌++◌,
  Option, none, some, Text, codes, ltb, leb, nat_beq, if◌then◌else◌, length, take, drop, replicate,
  decimal,
}
use superform_go_utils.Prelude.Int.{ℤ, pos, negsuc, magnitude, is_negative, signed}
use superform_go_utils.Prelude.Decimals.{all_digits, value_from}
use superform_go_utils.Prelude.Spaces.{trim_space}
use superform_go_utils.Prelude.Fallible.{Fallible, ok, err}

abbrev pub bps_base : ℕ
bps_base = 10000

unfoldable pub pow10 : ℕ → ℕ
pow10 decimals = 10 ^ decimals

abbrev pub keep_digit : ℕ → Text → Text
keep_digit c [] = if nat_beq c b'0' then [] else c ∷ []
keep_digit c (d ∷ ds) = c ∷ d ∷ ds

-- `strings.TrimRight(s, "0")`
unfoldable pub trim_right_zeros : Text → Text
trim_right_zeros [] = []
trim_right_zeros (c ∷ cs) = keep_digit c (trim_right_zeros cs)

abbrev pub sign_text : Bool → Text
sign_text true = b'-' ∷ []
sign_text false = []

-- The digits that `Format` splits: padded so that one digit stands before the point.
unfoldable pub padded : Text → ℕ → Text
padded s decimals = replicate (decimals + 1 - length s) b'0' ++ s

unfoldable pub with_fraction : Text → Text → Text
with_fraction whole [] = whole
with_fraction whole (c ∷ cs) = whole ++ (b'.' ∷ c ∷ cs)

unfoldable pub format : Option ℤ → ℕ → Text
unfolding with_fraction padded trim_right_zeros
format none decimals = b'0' ∷ []
format (some amount) zero = sign_text (is_negative amount) ++ decimal (magnitude amount)
format (some amount) (suc d) =
    let s = padded (decimal (magnitude amount)) (suc d) in
    let point = length s - suc d in
    sign_text (is_negative amount) ++ with_fraction (take point s) (trim_right_zeros (drop point s))

-- The errors of `Parse`; each message also quotes the text.
pub data AmountError : Type 0 where
  empty_amount too_many_decimals invalid_digit : AmountError

-- `strings.Cut(s, ".")`, without its third result.
unfoldable pub cut_point : Text → Text × Text
cut_point [] = ([], [])
cut_point (c ∷ cs) =
    let rest = cut_point cs in if nat_beq c b'.' then ([], cs) else (c ∷ rest.0, rest.1)

-- The sign of a text and what follows it.
unfoldable pub cut_sign : Text → Bool × Text
cut_sign [] = (false, [])
cut_sign (c ∷ cs) =
    if nat_beq c b'-' then (true, cs) else if nat_beq c b'+' then (false, cs) else (false, c ∷ cs)

abbrev pub is_empty : Text → Bool
is_empty [] = true
is_empty (c ∷ cs) = false

unfoldable pub parse_parts : Bool → Text → Text → ℕ → Fallible AmountError ℤ
parse_parts negative whole frac decimals =
    let digits = whole ++ (frac ++ replicate (decimals - length frac) b'0') in
    if is_empty whole && is_empty frac
    then err empty_amount
    else if ltb decimals (length frac)
    then err too_many_decimals
    else if not (all_digits digits)
    then err invalid_digit
    else ok (signed negative (value_from 0 digits))

unfoldable pub parse_signed : Bool × Text → ℕ → Fallible AmountError ℤ
unfolding parse_parts cut_point
parse_signed (negative, value) decimals =
    parse_parts negative (cut_point value).0 (cut_point value).1 decimals

unfoldable pub parse : Text → ℕ → Fallible AmountError ℤ
unfolding parse_signed cut_sign
parse value decimals = parse_signed (cut_sign (trim_space value)) decimals

-- `Quo` by a positive number truncates toward zero.
abbrev pub quo : ℤ → ℕ → ℤ
quo amount d = signed (is_negative amount) (magnitude amount / d)

abbrev pub scale : ℤ → ℕ → ℤ
scale amount f = signed (is_negative amount) (magnitude amount * f)

unfoldable pub rescale : Option ℤ → ℕ → ℕ → ℤ
unfolding pow10
rescale none from_decimals to_decimals = pos 0
rescale (some amount) from_decimals to_decimals =
    if ltb from_decimals to_decimals
    then scale amount (pow10 (to_decimals - from_decimals))
    else if ltb to_decimals from_decimals
    then quo amount (pow10 (from_decimals - to_decimals))
    else amount

abbrev pub outside : ℤ → Bool
outside (pos n) = ltb bps_base n
outside (negsuc n) = true

abbrev pub is_zero : ℤ → Bool
is_zero (pos n) = nat_beq n 0
is_zero (negsuc n) = false

unfoldable pub apply_slippage_bps : Option ℤ → ℤ → ℤ
apply_slippage_bps none slippage_bps = pos 0
apply_slippage_bps (some amount) slippage_bps =
    if is_zero amount || outside slippage_bps
    then pos 0
    else quo (scale amount (bps_base - magnitude slippage_bps)) bps_base

unfoldable pub mul_bps_ceil : Option ℤ → ℕ → ℤ
mul_bps_ceil none bps = pos 0
mul_bps_ceil (some amount) bps =
    if is_zero amount || is_negative amount || nat_beq bps 0
    then pos 0
    else if ltb bps_base bps
    then amount
    else pos ((magnitude amount * bps + (bps_base - 1)) / bps_base)
