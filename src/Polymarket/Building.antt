-- ===== src/Polymarket/Building.antt =====
-- Building an order and signing it: `BuildOrder`, `Validate` and `Hash` together
-- (utils/polymarket/order.go).
use superform_go_utils.Prelude.{
  ℕ, ◌<◌, Bool, true, false, ◌||◌, [], ◌∷◌, Option, none, some, ◌≡◌, refl, ltb, nat_beq, arith,
  Text, text_beq, text_beq_iff, length, decimal, inl, inr,
}
use superform_go_utils.Prelude.Int.{ℤ, pos, negsuc}
use superform_go_utils.Prelude.BigInt.{set_string-decimal, fits_uint256, length-decimal_uint256}
use superform_go_utils.Prelude.Decimals.{
  is_digit, all_of-weaken, all_digits-decimal, StartsPositive, decimal-StartsPositive,
}
use superform_go_utils.Prelude.Spaces.{trim_space, trim_space_visible, is_visible}
use superform_go_utils.Prelude.Fallible.{ok, ◌>>=◌, Fallible-cases}
use superform_go_utils.Polymarket.{
  BuildOrderInput, order_of, check_input, normalize_order_amounts, validate, build_order,
  is_canonical_uint256, parse_uint256, positive_uint256, amount_of, known_side,
  max_uint256_decimal_digits, max_safe_order_salt, max_timestamp, order_signature_type_poly1271,
  starts_with_zero,
}
use superform_go_utils.Polymarket.Amounts.{normalize_order_amounts_sound}

trim_space-decimal : (n : ℕ) → trim_space (decimal n) ≡ decimal n
trim_space-decimal n =
    trim_space_visible (decimal n)
      (all_of-weaken is_digit is_visible (decimal n) (λ c e. ground arith) (all_digits-decimal n))

no_leading_zero : (s : Text) → StartsPositive s → starts_with_zero s ≡ false
no_leading_zero [] h = absurd h
no_leading_zero (c ∷ cs) h = ground arith

some_digit : (s : Text) → StartsPositive s → nat_beq (length s) 0 ≡ false
some_digit [] h = absurd h
some_digit (c ∷ cs) h = ground arith

-- The decimal text of a positive uint256 is canonical.
pub is_canonical_uint256-decimal :
    (n : ℕ) (allow_zero : Bool)
    → 0 < n
    → fits_uint256 n ≡ true
    → is_canonical_uint256 (decimal n) allow_zero ≡ true
unfolding is_canonical_uint256
is_canonical_uint256-decimal n allow_zero p f =
    let head = decimal-StartsPositive n p in
    let short : ltb max_uint256_decimal_digits (length (decimal n)) ≡ false =
      ground (arith, length-decimal_uint256 n f) in
    let trimmed : text_beq (decimal n) (decimal n) ≡ true =
      (text_beq_iff (decimal n) (decimal n)).1 refl in
    let positive : ltb 0 n ≡ true = ground arith in
    rw
      (
        some_digit (decimal n) head,
        short,
        trim_space-decimal n,
        trimmed,
        no_leading_zero (decimal n) head,
        set_string-decimal n p,
      )
      (ground arith)

-- It is read as that number.
pub parse_uint256-decimal :
    (n : ℕ) → 0 < n → fits_uint256 n ≡ true → parse_uint256 (decimal n) ≡ ok n
unfolding parse_uint256
parse_uint256-decimal n p f = rw (set_string-decimal n p) (ground arith)

-- What `Validate` asks of the fields that `BuildOrder` copies.
unfoldable pub Copied : BuildOrderInput → Type 0
Copied i =
    ((nat_beq i.maker 0 || nat_beq i.signer 0) ≡ false)
    × (ltb max_safe_order_salt i.salt ≡ false)
    × (known_side i.side ≡ true)
    × (nat_beq i.signature_type order_signature_type_poly1271 ≡ true)
    × ((nat_beq i.timestamp 0 || ltb max_timestamp i.timestamp) ≡ false)
    × (positive_uint256 i.token_id ≡ true)

pub check_input_sound : (i : BuildOrderInput) → check_input i ≡ ok tt → Copied i
unfolding check_input Copied
check_input_sound i h =
    (ground arith, ground arith, ground arith, ground arith, ground arith, ground arith)

-- The checked token id is a positive uint256.
pub token_id-bounds :
    (t : Option ℤ)
    → positive_uint256 t ≡ true
    → (0 < amount_of t) × (fits_uint256 (amount_of t) ≡ true)
token_id-bounds none h = absurd (ground arith)
token_id-bounds (some (negsuc n)) h = absurd (ground arith)
token_id-bounds (some (pos n)) h = (ground arith, ground arith)

-- An order of checked input and positive amounts is valid.
pub validate-order_of :
    (i : BuildOrderInput) (maker taker : ℕ)
    → Copied i
    → (0 < maker) × (fits_uint256 maker ≡ true) × (0 < taker) × (fits_uint256 taker ≡ true)
    → validate (order_of i (maker, taker)) ≡ ok tt
unfolding validate Copied
validate-order_of i maker taker (addresses, salt, side, kind, time, token) (mp, mf, tp, tf) =
    let (ip, if') = token_id-bounds i.token_id token in
    rw
      (
        addresses,
        salt,
        is_canonical_uint256-decimal (amount_of i.token_id) false ip if',
        is_canonical_uint256-decimal maker false mp mf,
        is_canonical_uint256-decimal taker false tp tf,
        side,
        kind,
        time,
      )
      refl

-- `BuildOrder` fails exactly as its guards and the normalisation fail: the last call of `Validate`
-- never refuses what they let through.
pub build_order-accepts :
    (i : BuildOrderInput)
    → build_order i ≡ (
        check_input i >>= (λ _. normalize_order_amounts i.side i.price_e6 i.size_e6) >>= λ amounts.
        ok (order_of i amounts))
unfolding build_order
build_order-accepts i = elim (Fallible-cases (check_input i)) [
  | inl (e, refused) ↦ rw refused refl
  | inr (u, passed) ↦ elim (Fallible-cases (normalize_order_amounts i.side i.price_e6 i.size_e6)) [
    | inl (e, refused) ↦ rw (passed, refused) refl
    | inr ((maker, taker), amounts) ↦
        let valid =
          validate-order_of i maker taker (check_input_sound i passed)
            (normalize_order_amounts_sound i.side i.price_e6 maker taker i.size_e6 amounts) in
        rw (passed, amounts, valid) refl
  ]
]
