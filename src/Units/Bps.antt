-- ===== src/Units/Bps.antt =====
-- The rounding of basis points and of precisions in utils/units/units.go.
use superform_go_utils.Prelude.{
  ℕ, zero, suc, ◌+◌, ◌-◌, ◌*◌, ◌/◌, some, ltb, leb, true, ◌≡◌, ap, ◌≤◌, ◌<◌, arith,
}
use superform_go_utils.Prelude.Int.{pos}
use native.Mathlib.Nat.{mul-le-mul_left}
use superform_go_utils.Units.{bps_base, apply_slippage_bps, mul_bps_ceil}

-- In range the result is the ceiling of the quotient, at 0 too.
mul_bps_ceil_lem :
    (amount bps : ℕ)
    → leb bps bps_base ≡ true
    → mul_bps_ceil (some (pos amount)) bps ≡ pos ((amount * bps + (bps_base - 1)) / bps_base)
unfolding mul_bps_ceil
mul_bps_ceil_lem zero bps small = ground arith
mul_bps_ceil_lem (suc a) zero small = ground arith
mul_bps_ceil_lem (suc a) (suc b) small = ground arith

-- A fee in basis points of a positive amount, rounded up, covers the exact fee by less than one unit
-- and never exceeds the amount.
pub mul_bps_ceil-bounds :
    (amount bps : ℕ)
    → ltb 0 amount ≡ true
    → leb bps bps_base ≡ true
    → (fee : ℕ) × (mul_bps_ceil (some (pos amount)) bps ≡ pos fee)
      × (amount * bps ≤ fee * bps_base)
      × (fee * bps_base < amount * bps + bps_base)
      × (fee ≤ amount)
unfolding mul_bps_ceil
mul_bps_ceil-bounds amount zero positive small =
    (0, ground arith, omega arith, omega arith, omega arith)
mul_bps_ceil-bounds amount (suc b) positive small =
    let whole : amount * suc b ≤ amount * bps_base = mul-le-mul_left amount (ground arith) in
    (
      (amount * suc b + (bps_base - 1)) / bps_base,
      ground arith,
      omega arith,
      omega arith,
      omega (arith, whole),
    )

-- For a non-negative amount and at most 10000 basis points: what slippage leaves of the amount and
-- what the same number of basis points takes of it, rounded up, add up to the amount.
pub apply_slippage_bps-complement :
    (amount bps : ℕ)
    → leb bps bps_base ≡ true
    → (kept fee : ℕ) × (apply_slippage_bps (some (pos amount)) (pos bps) ≡ pos kept)
      × (mul_bps_ceil (some (pos amount)) bps ≡ pos fee)
      × (kept + fee ≡ amount)
unfolding mul_bps_ceil apply_slippage_bps
apply_slippage_bps-complement amount bps small =
    let parts : (bps_base - bps) + bps ≡ bps_base = ground arith in
    let split : amount * ((bps_base - bps) + bps) ≡ amount * bps_base =
      ap (λ t. amount * t) parts in
    (
      amount * (bps_base - bps) / bps_base,
      (amount * bps + (bps_base - 1)) / bps_base,
      ground arith,
      mul_bps_ceil_lem amount bps small,
      omega (arith, split),
    )
