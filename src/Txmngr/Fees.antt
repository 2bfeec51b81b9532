-- ===== src/Txmngr/Fees.antt =====
-- Fee arithmetic: `GasFee` and its helpers in evm/txmngr/txmngr.go. Fees are amounts of wei that a
-- node reported, so they are natural numbers; a nil `*big.Int` is `none`.
pub mod Outbid
use superform_go_utils.Prelude.{
  ℕ, ◌+◌, ◌*◌, ◌/◌, Option, none, some, ltb, leb, if◌then◌else◌, ◌≡◌, ◌≤◌, ◌<◌, arith, ◌&&◌, Bool,
}

pub record GasFee : Type 0 where
  pub gas_price : Option ℕ
  pub gas_tip_cap : Option ℕ
  pub gas_fee_cap : Option ℕ

-- A copy holds the same number: `big.Int` values are not shared in the model.
unfoldable pub clone_big_int : Option ℕ → Option ℕ
clone_big_int none = none
clone_big_int (some v) = some v

unfoldable pub clone_gas_fee : Option GasFee → Option GasFee
unfolding clone_big_int
clone_gas_fee none = none
clone_gas_fee (some fee) = some (record {
  gas_price = clone_big_int fee.gas_price;
  gas_tip_cap = clone_big_int fee.gas_tip_cap;
  gas_fee_cap = clone_big_int fee.gas_fee_cap;
})

unfoldable pub max_big_int : Option ℕ → Option ℕ → Option ℕ
unfolding clone_big_int
max_big_int none right = clone_big_int right
max_big_int (some l) none = clone_big_int (some l)
max_big_int (some l) (some r) = if leb r l then clone_big_int (some l) else clone_big_int (some r)

unfoldable pub highest_gas_fee : Option GasFee → Option GasFee → Option GasFee
unfolding clone_gas_fee max_big_int
highest_gas_fee none right = clone_gas_fee right
highest_gas_fee (some l) none = clone_gas_fee (some l)
highest_gas_fee (some l) (some r) = some (record {
  gas_price = max_big_int l.gas_price r.gas_price;
  gas_tip_cap = max_big_int l.gas_tip_cap r.gas_tip_cap;
  gas_fee_cap = max_big_int l.gas_fee_cap r.gas_fee_cap;
})

-- `coef` is a percentage that is not negative.
unfoldable pub bump_gas_price : Option ℕ → ℕ → ℕ
bump_gas_price none coef = 0
bump_gas_price (some price) coef =
    let bumped = price * (100 + coef) / 100 in
    if ltb 0 price && leb bumped price then price + 1 else bumped

-- The base of a bump: the current fee component where it is set and above the suggestion.
unfoldable pub bump_base : Option ℕ → ℕ → ℕ
bump_base none suggested = suggested
bump_base (some current) suggested = if ltb suggested current then current else suggested

abbrev pub component : (GasFee → Option ℕ) → Option GasFee → Option ℕ
component f none = none
component f (some fee) = f fee

-- The arithmetic of `suggestGasPrice`, once the node has answered.
unfoldable pub gas_price_from : ℕ → Option GasFee → ℕ → GasFee
unfolding bump_base bump_gas_price
gas_price_from suggested current coef = record {
  gas_price =
      some
        (bump_gas_price (some (bump_base (component (λ f. f.gas_price) current) suggested)) coef);
  gas_tip_cap = none;
  gas_fee_cap = none;
}

-- The fee cap of `suggestEIP1559GasFee`: at least the bumped previous cap.
unfoldable pub fee_cap_from : Option ℕ → ℕ → ℕ → ℕ
unfolding bump_gas_price
fee_cap_from none cap coef = cap
fee_cap_from (some previous) cap coef =
    let bumped = bump_gas_price (some previous) coef in if ltb cap bumped then bumped else cap

-- The arithmetic of `suggestEIP1559GasFee`, once the node has answered.
unfoldable pub eip1559_fee_from : ℕ → ℕ → Option GasFee → ℕ → GasFee
unfolding bump_base bump_gas_price fee_cap_from
eip1559_fee_from base_fee suggested_tip current coef =
    let tip =
      bump_gas_price (some (bump_base (component (λ f. f.gas_tip_cap) current) suggested_tip))
        coef in
    record {
      gas_price = none;
      gas_tip_cap = some tip;
      gas_fee_cap =
          some (fee_cap_from (component (λ f. f.gas_fee_cap) current) (base_fee * 2 + tip) coef);
    }
