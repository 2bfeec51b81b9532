-- ===== src/Polymarket/Decimal.antt =====
-- Decimal texts of a fixed scale: `ParseFixedPoint` and `DecimalToE6` of utils/polymarket/order.go.
use superform_go_utils.Prelude.{
  ℕ, ◌+◌, ◌-◌, Bool, ◌&&◌, ◌||◌, not, List, [], ◌∷◌, ◌++◌, Option, none, some, Text, ltb, leb,
  nat_beq, text_beq, if◌then◌else◌, length, replicate,
}
use superform_go_utils.Prelude.Int.{ℤ, pos, negsuc, magnitude}
use superform_go_utils.Prelude.BigInt.{set_string, fits_uint256}
use superform_go_utils.Prelude.Decimals.{all_digits, all_of}
use superform_go_utils.Prelude.Spaces.{trim_space}
use superform_go_utils.Prelude.Fallible.{Fallible, ok, err}
use superform_go_utils.Polymarket.{max_uint256_decimal_digits, starts_with_zero}

pub data DecimalError : Type 0 where
  not_canonical malformed leading_zeroes precision_exceeds_scale non_digits invalid exceeds_uint256
        outside_uint64 :
      DecimalError

-- `strings.Split(raw, ".")`: the text up to the first point, and the texts behind the points.
unfoldable pub split_points : Text → Text × List Text
split_points [] = ([], [])
split_points (c ∷ cs) =
    let (head, rest) = split_points cs in
    if nat_beq c b'.' then ([], head ∷ rest) else (c ∷ head, rest)

-- No byte is one of "eE+".
abbrev pub plain : ℕ → Bool
plain c = not (nat_beq c b'e' || nat_beq c b'E' || nat_beq c b'+')

abbrev bounded : Option ℤ → Fallible DecimalError ℤ
bounded none = err invalid
bounded (some value) = if fits_uint256 (magnitude value) then ok value else err exceeds_uint256

-- From the whole part and the fraction on.
unfoldable pub combine : ℕ → Text → Text → Fallible DecimalError ℤ
combine decimals whole fraction =
    if not (all_digits (whole ++ fraction))
    then err non_digits
    else bounded (set_string (whole ++ (fraction ++ replicate (decimals - length fraction) b'0')))

unfoldable pub parse_split : ℕ → Text × List Text → Fallible DecimalError ℤ
parse_split decimals (whole, []) =
    if nat_beq (length whole) 0
    then err malformed
    else if ltb 1 (length whole) && starts_with_zero whole
    then err leading_zeroes
    else combine decimals whole []
parse_split decimals (whole, fraction ∷ []) =
    if nat_beq (length whole) 0
    then err malformed
    else if ltb 1 (length whole) && starts_with_zero whole
    then err leading_zeroes
    else if nat_beq (length fraction) 0 || ltb decimals (length fraction)
    then err precision_exceeds_scale
    else combine decimals whole fraction
parse_split decimals (whole, fraction ∷ third ∷ more) = err malformed

unfoldable pub parse_fixed_point : Text → ℤ → Fallible DecimalError ℤ
parse_fixed_point raw (negsuc n) = err not_canonical
parse_fixed_point raw (pos decimals) =
    if ltb 256 decimals
      || nat_beq (length raw) 0
      || ltb (max_uint256_decimal_digits + decimals + 1) (length raw)
      || not (text_beq (trim_space raw) raw)
      || not (all_of plain raw)
    then err not_canonical
    else parse_split decimals (split_points raw)

-- `IsUint64`
abbrev within_uint64 : Fallible DecimalError ℤ → Fallible DecimalError ℕ
within_uint64 (err e) = err outside_uint64
within_uint64 (ok (negsuc n)) = err outside_uint64
within_uint64 (ok (pos n)) = if leb n 18446744073709551615 then ok n else err outside_uint64

unfoldable pub decimal_to_e6 : Text → Fallible DecimalError ℕ
decimal_to_e6 raw = within_uint64 (parse_fixed_point raw (pos 6))
