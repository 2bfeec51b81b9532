-- ===== src/Polymarket/Amounts.antt =====
-- What `NormalizeOrderAmounts` yields (utils/polymarket/order.go).
use superform_go_utils.Prelude.{
  ℕ, ◌+◌, ◌-◌, ◌*◌, ◌/◌, ◌≤◌, ◌<◌, true, Option, none, some, if◌then◌else◌, ◌≡◌, ltb, arith,
  Bool-cases, inl, inr,
}
use superform_go_utils.Prelude.Int.{ℤ, pos, negsuc}
use superform_go_utils.Prelude.BigInt.{fits_uint256}
use superform_go_utils.Prelude.Fallible.{ok, err}
use native.Mathlib.Nat.{mul-le-mul_right}
use superform_go_utils.Polymarket.{
  OrderError, normalize_order_amounts, order_price_scale_e6, order_side_buy, order_side_sell,
}

-- A price and a size in range.
abbrev pub InRange : ℕ → ℕ → Type 0
InRange price size =
    (0 < price) × (price < order_price_scale_e6) × (0 < size) × (fits_uint256 size ≡ true)

-- A buy of a price and a size in range has amounts, and it never overflows: the taker amount is the
-- size and the maker amount is the least number of units that pays for it, positive and at most
-- the size.
pub normalize_order_amounts-buy :
    (price size : ℕ)
    → InRange price size
    → (maker : ℕ) × (normalize_order_amounts order_side_buy price (some (pos size))
        ≡ ok (maker, size))
      × (price * size ≤ maker * order_price_scale_e6)
      × (maker * order_price_scale_e6 < price * size + order_price_scale_e6)
      × (0 < maker)
      × (maker ≤ size)
unfolding normalize_order_amounts
normalize_order_amounts-buy price size (hp, hs, hz, hf) =
    let below : price * size ≤ (order_price_scale_e6 - 1) * size =
      mul-le-mul_right size (omega arith) in
    let above : 1 * size ≤ price * size = mul-le-mul_right size (omega arith) in
    let maker = (price * size + (order_price_scale_e6 - 1)) / order_price_scale_e6 in
    let small : maker ≤ size = omega (arith, below) in
    let bounded : fits_uint256 maker ≡ true = ground arith in
    (maker, ground arith, omega arith, omega arith, omega (arith, above), small)

-- A sale of a price and a size in range gives out the size; what it takes is the whole part of the
-- exact value, and it is refused exactly when that part is 0.
pub normalize_order_amounts-sell :
    (price size : ℕ)
    → InRange price size
    → normalize_order_amounts order_side_sell price (some (pos size)) ≡ (
        if ltb (price * size) order_price_scale_e6
        then err OrderError.amounts_exceed_uint256
        else ok (size, price * size / order_price_scale_e6))
unfolding normalize_order_amounts
normalize_order_amounts-sell price size (hp, hs, hz, hf) =
    let below : price * size ≤ (order_price_scale_e6 - 1) * size =
      mul-le-mul_right size (omega arith) in
    let taker = price * size / order_price_scale_e6 in
    let small : taker ≤ size = omega (arith, below) in
    let bounded : fits_uint256 taker ≡ true = ground arith in ground arith

-- The amounts of an order are positive uint256 numbers.
pub normalize_order_amounts_sound :
    (side price maker taker : ℕ) (size : Option ℤ)
    → normalize_order_amounts side price size ≡ ok (maker, taker)
    → (0 < maker) × (fits_uint256 maker ≡ true) × (0 < taker) × (fits_uint256 taker ≡ true)
unfolding normalize_order_amounts
normalize_order_amounts_sound side price maker taker none h = absurd (ground arith)
normalize_order_amounts_sound side price maker taker (some (negsuc n)) h = absurd (ground arith)
normalize_order_amounts_sound side price maker taker (some (pos n)) h =
    elim (Bool-cases (ltb 0 price)) [
      | inl positive ↦
          let above : 1 * n ≤ price * n = mul-le-mul_right n (ground arith) in
          (ground (arith, above), ground arith, ground (arith, above), ground arith)
      | inr zero_price ↦ absurd (ground arith)
    ]
