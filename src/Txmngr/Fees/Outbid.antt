-- ===== src/Txmngr/Fees/Outbid.antt =====
-- What the fee arithmetic of evm/txmngr/txmngr.go (`bumpGasPrice`, `suggestGasPrice`,
-- `suggestEIP1559GasFee`, `highestGasFee`) gives a replacement.
use superform_go_utils.Prelude.{ℕ, ◌+◌, ◌*◌, ◌/◌, some, ltb, ◌≡◌, ap, ◌≤◌, ◌<◌, arith, true}
use native.Mathlib.Nat.{mul-le-mul_right}
use superform_go_utils.Txmngr.Fees.{
  GasFee, bump_gas_price, bump_base, gas_price_from, fee_cap_from, eip1559_fee_from,
}

-- The bump of a positive price exceeds it, and is the price raised by the full percentage and
-- rounded down, or one more.
pub bump_gas_price-raises :
    (price coef : ℕ)
    → ltb 0 price ≡ true
    → (price * (100 + coef) / 100 ≤ bump_gas_price (some price) coef)
      × (bump_gas_price (some price) coef ≤ price * (100 + coef) / 100 + 1)
      × (price < bump_gas_price (some price) coef)
unfolding bump_gas_price
bump_gas_price-raises price coef positive = ground arith

-- The base of a bump is the current fee or the suggestion, whichever is more.
bump_base-upper :
    (current suggested : ℕ)
    → (current ≤ bump_base (some current) suggested)
      × (suggested ≤ bump_base (some current) suggested)
unfolding bump_base
bump_base-upper current suggested = ground arith

-- Bumping a base that is no less than a price outbids the price.
bump_gas_price-outbids :
    (price base coef : ℕ)
    → price ≤ base
    → ltb 0 price ≡ true
    → (price < bump_gas_price (some base) coef)
      × (price * (100 + coef) / 100 ≤ bump_gas_price (some base) coef)
      × (base ≤ bump_gas_price (some base) coef)
bump_gas_price-outbids price base coef over positive =
    let (keeps, _, raised) = bump_gas_price-raises base coef (ground arith) in
    let scaled : price * (100 + coef) ≤ base * (100 + coef) = mul-le-mul_right (100 + coef) over in
    (omega (arith, raised, over), omega (arith, keeps, scaled), omega (arith, raised))

-- With a positive current legacy price, the suggested replacement exceeds it, keeps the full percentage
-- over it and is at least what the node suggests.
pub gas_price_from-outbids :
    (suggested price coef : ℕ) (current : GasFee)
    → current.gas_price ≡ some price
    → ltb 0 price ≡ true
    → (replacement : ℕ) × ((gas_price_from suggested (some current) coef).gas_price
        ≡ some replacement)
      × (price < replacement)
      × (price * (100 + coef) / 100 ≤ replacement)
      × (suggested ≤ replacement)
unfolding gas_price_from
gas_price_from-outbids suggested price coef current e positive =
    let (over_price, over_suggested) = bump_base-upper price suggested in
    let (more, keeps, above) =
      bump_gas_price-outbids price (bump_base (some price) suggested) coef over_price positive in
    (
      bump_gas_price (some (bump_base (some price) suggested)) coef,
      ap (λ p. some (bump_gas_price (some (bump_base p suggested)) coef)) e,
      more,
      keeps,
      omega (arith, over_suggested, above),
    )

-- The fee cap takes the bumped previous cap where that is more.
fee_cap_from-upper :
    (previous cap coef : ℕ)
    → (bump_gas_price (some previous) coef ≤ fee_cap_from (some previous) cap coef)
      × (cap ≤ fee_cap_from (some previous) cap coef)
unfolding fee_cap_from
fee_cap_from-upper previous cap coef = ground arith

-- With a current tip cap and fee cap that are positive, the suggested replacement exceeds both, keeps
-- the full percentage over both, and its fee cap leaves room for twice the base fee.
pub eip1559_fee_from-outbids :
    (base_fee suggested_tip tip cap coef : ℕ) (current : GasFee)
    → current.gas_tip_cap ≡ some tip
    → current.gas_fee_cap ≡ some cap
    → ltb 0 tip ≡ true
    → ltb 0 cap ≡ true
    → (new_tip : ℕ) × (new_cap : ℕ) × ((eip1559_fee_from base_fee suggested_tip
          (some current)
          coef).gas_tip_cap
        ≡ some new_tip)
      × ((eip1559_fee_from base_fee suggested_tip (some current) coef).gas_fee_cap ≡ some new_cap)
      × (tip < new_tip)
      × (cap < new_cap)
      × (tip * (100 + coef) / 100 ≤ new_tip)
      × (cap * (100 + coef) / 100 ≤ new_cap)
      × (base_fee * 2 + new_tip ≤ new_cap)
unfolding eip1559_fee_from
eip1559_fee_from-outbids base_fee suggested_tip tip cap coef current e f p q =
    let (over_tip, _) = bump_base-upper tip suggested_tip in
    let new_tip = bump_gas_price (some (bump_base (some tip) suggested_tip)) coef in
    let (more, keeps, _) =
      bump_gas_price-outbids tip (bump_base (some tip) suggested_tip) coef over_tip p in
    let (keeps_cap, _, raised) = bump_gas_price-raises cap coef q in
    let (over_bumped, over_cap) = fee_cap_from-upper cap (base_fee * 2 + new_tip) coef in
    (
      new_tip,
      fee_cap_from (some cap) (base_fee * 2 + new_tip) coef,
      ap (λ t. some (bump_gas_price (some (bump_base t suggested_tip)) coef)) e,
      λ i. some (
          fee_cap_from (f i)
            (base_fee * 2 + bump_gas_price (some (bump_base (e i) suggested_tip)) coef) coef),
      more,
      omega (arith, raised, over_bumped),
      keeps,
      omega (arith, keeps_cap, over_bumped),
      over_cap,
    )
