-- ===== src/Units/Tests.antt =====
-- Token amounts at concrete inputs (utils/units/units.go).
use superform_go_utils.Prelude.{ℕ, ◌+◌, some, ◌≡◌, refl, codes}
use superform_go_utils.Prelude.Int.{pos, negsuc}
use superform_go_utils.Prelude.Fallible.{ok, err}
use superform_go_utils.Prelude.Spaces.{trim_space}
use superform_go_utils.Prelude.Decimals.{all_of, value_from}
use superform_go_utils.Prelude.{reverse_onto, decimal}
use superform_go_utils.Units.{format, parse, apply_slippage_bps, mul_bps_ceil, AmountError}
use superform_go_utils.Units.RoundTrip.{parse-format}
use superform_go_utils.Units.Bps.{apply_slippage_bps-complement}

parse-format_example : parse (format (some (negsuc 1234567)) 6) 6 ≡ ok (negsuc 1234567)
parse-format_example = parse-format (negsuc 1234567) 6

apply_slippage_bps-complement_example :
    (kept fee : ℕ) × (apply_slippage_bps (some (pos 1001)) (pos 50) ≡ pos kept)
    × (mul_bps_ceil (some (pos 1001)) 50 ≡ pos fee)
    × (kept + fee ≡ 1001)
apply_slippage_bps-complement_example = apply_slippage_bps-complement 1001 50 refl

format_test : format (some (negsuc 1234567)) 6 ≡ codes "-1.234568"
unfolding format decimal
format_test = refl

parse_test : parse (codes " .5 ") 2 ≡ ok (pos 50)
unfolding parse trim_space reverse_onto all_of value_from
parse_test = refl

parse_too_many_decimals_test : parse (codes "0.001") 2 ≡ err AmountError.too_many_decimals
unfolding parse trim_space reverse_onto all_of value_from
parse_too_many_decimals_test = refl

-- The comment promises the result rounded down; a negative amount is rounded up.
apply_slippage_bps_negative_test : apply_slippage_bps (some (negsuc 0)) (pos 50) ≡ pos 0
unfolding apply_slippage_bps
apply_slippage_bps_negative_test = refl
