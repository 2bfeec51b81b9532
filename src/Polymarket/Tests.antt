-- ===== src/Polymarket/Tests.antt =====
-- Polymarket orders at concrete inputs (utils/polymarket/order.go).
use superform_go_utils.Prelude.{
  ℕ, ◌+◌, ◌*◌, ◌/◌, ◌≤◌, ◌<◌, true, false, List, [], ◌∷◌, Option, some, Text, codes, ltb,
  if◌then◌else◌, length, text_beq, ◌≡◌, refl, arith,
}
use superform_go_utils.Prelude.Int.{pos}
use superform_go_utils.Prelude.Spaces.{trim_space}
use superform_go_utils.Prelude.Decimals.{all_of, value_from}
use superform_go_utils.Prelude.{reverse_onto}
use superform_go_utils.Prelude.BigInt.{set_string, max_uint256}
use superform_go_utils.Prelude.Fallible.{ok, err, ◌>>=◌}
use superform_go_utils.Polymarket.{
  BuildOrderInput, OrderError, order_of, check_input, normalize_order_amounts, build_order,
  is_canonical_uint256, order_price_scale_e6,
}
use superform_go_utils.Polymarket.Amounts.{
  normalize_order_amounts-buy, normalize_order_amounts-sell,
}
use superform_go_utils.Polymarket.Building.{build_order-accepts}
use superform_go_utils.Polymarket.Signing.{digest_of_amounts, hash-build_order}
use superform_go_utils.Polymarket.Digest.{AbiValue, hash}

abbrev sample_input : BuildOrderInput
sample_input = record {
  salt = 5;
  maker = 11;
  signer = 12;
  token_id = some (pos 77);
  price_e6 = 500000;
  size_e6 = some (pos 20000);
  tick_size_e6 = 10000;
  side = 0;
  signature_type = 3;
  timestamp = 1;
  metadata = 0;
  builder = 0;
}

abbrev sample_keccak : Text → ℕ
sample_keccak t = length t

abbrev sample_bytes : ℕ → Text
sample_bytes n = n ∷ []

abbrev sample_pack : List AbiValue → Option Text
sample_pack values = some (length values ∷ [])

normalize_order_amounts-buy_example :
    (maker : ℕ) × (normalize_order_amounts 0 333333 (some (pos 10000)) ≡ ok (maker, 10000))
    × (333333 * 10000 ≤ maker * order_price_scale_e6)
    × (maker * order_price_scale_e6 < 333333 * 10000 + order_price_scale_e6)
    × (0 < maker)
    × (maker ≤ 10000)
unfolding max_uint256
normalize_order_amounts-buy_example =
    normalize_order_amounts-buy 333333 10000 (omega arith, omega arith, omega arith, refl)

normalize_order_amounts-sell_example : normalize_order_amounts 1 333333 (some (pos 10000)) ≡ (
    if ltb (333333 * 10000) order_price_scale_e6
    then err OrderError.amounts_exceed_uint256
    else ok (10000, 333333 * 10000 / order_price_scale_e6))
unfolding max_uint256
normalize_order_amounts-sell_example =
    normalize_order_amounts-sell 333333 10000 (omega arith, omega arith, omega arith, refl)

build_order-accepts_example : build_order sample_input ≡ (
    check_input sample_input
    >>= (λ _. normalize_order_amounts 0 500000 (some (pos 20000)))
    >>= λ amounts. ok (order_of sample_input amounts))
build_order-accepts_example = build_order-accepts sample_input

hash-build_order_example :
    (build_order sample_input >>= λ o.
    hash sample_keccak sample_bytes sample_pack o (codes "STANDARD"))
    ≡ (check_input sample_input
        >>= (λ _. normalize_order_amounts 0 500000 (some (pos 20000)))
        >>= λ amounts.
            digest_of_amounts sample_keccak sample_bytes sample_pack sample_input
              (codes "STANDARD")
              amounts)
hash-build_order_example =
    hash-build_order sample_keccak sample_bytes sample_pack sample_input (codes "STANDARD")

-- A sign is not refused, although such a text is not canonical.
is_canonical_uint256_sign_test : is_canonical_uint256 (codes "+5") false ≡ true
unfolding is_canonical_uint256 set_string trim_space text_beq max_uint256 reverse_onto all_of
    value_from
is_canonical_uint256_sign_test = refl
