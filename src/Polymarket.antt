-- ===== src/Polymarket.antt =====
-- Polymarket V2 orders: utils/polymarket/order.go and the market families of
-- utils/polymarket/constants.go. An address, a 32-byte hash and a uint64 are numbers, a *big.Int is
-- an integer or `none` for nil, a side is its uint8.
pub mod Digest
pub mod Amounts
pub mod Building
pub mod Signing
pub mod Decimal
mod Tests
use superform_go_utils.Prelude.{
  ℕ, zero, suc, ◌+◌, ◌-◌, ◌*◌, ◌/◌, ◌%◌, ◌^◌, Bool, true, false, ◌&&◌, ◌||◌, not, List, [], ◌∷◌,
  ◌++◌, Option, none, some, Text, String, codes, ltb, leb, nat_beq, text_beq, if◌then◌else◌, length,
  replicate, decimal,
}
use superform_go_utils.Prelude.Int.{ℤ, pos, negsuc}
use superform_go_utils.Prelude.BigInt.{set_string, fits_uint256}
use superform_go_utils.Prelude.Spaces.{trim_space}
use superform_go_utils.Prelude.Fallible.{Fallible, ok, err, ◌>>=◌}

abbrev pub Address : Type 0
Address = ℕ

abbrev pub Hash : Type 0
Hash = ℕ

abbrev pub order_signature_type_poly1271 : ℕ
order_signature_type_poly1271 = 3

abbrev pub order_price_scale_e6 : ℕ
order_price_scale_e6 = 1000000

abbrev pub order_size_grid_e6 : ℕ
order_size_grid_e6 = 10000

abbrev pub max_safe_order_salt : ℕ
max_safe_order_salt = 9007199254740991

abbrev pub max_uint256_decimal_digits : ℕ
max_uint256_decimal_digits = 78

abbrev pub max_timestamp : ℕ
max_timestamp = 9223372036854775807

abbrev pub order_side_buy : ℕ
order_side_buy = 0

abbrev pub order_side_sell : ℕ
order_side_sell = 1

abbrev pub polygon_chain_id : ℕ
polygon_chain_id = 137

-- The errors, by what their messages say.
pub data OrderError : Type 0 where
  maker_and_signer_required bad_token_id bad_price bad_size size_off_grid price_off_grid bad_side
        bad_signature_type salt_too_large bad_timestamp price_or_size_unbounded
        amounts_exceed_uint256 bad_amount_field unsupported_market encoding_failed :
      OrderError

pub record Order : Type 0 where
  pub salt : ℕ
  pub maker : Address
  pub signer : Address
  pub token_id : Text
  pub maker_amount : Text
  pub taker_amount : Text
  pub side : ℕ
  pub signature_type : ℕ
  pub timestamp : ℕ
  pub metadata : Hash
  pub builder : Hash

pub record BuildOrderInput : Type 0 where
  pub salt : ℕ
  pub maker : Address
  pub signer : Address
  pub token_id : Option ℤ
  pub price_e6 : ℕ
  pub size_e6 : Option ℤ
  pub tick_size_e6 : ℕ
  pub side : ℕ
  pub signature_type : ℕ
  pub timestamp : ℕ
  pub metadata : Hash
  pub builder : Hash

-- `n == nil || n.Sign() <= 0 || n.BitLen() > 256`, negated.
abbrev pub positive_uint256 : Option ℤ → Bool
positive_uint256 none = false
positive_uint256 (some (negsuc n)) = false
positive_uint256 (some (pos n)) = ltb 0 n && fits_uint256 n

-- A number that is known not to be nil or negative.
abbrev pub amount_of : Option ℤ → ℕ
amount_of none = 0
amount_of (some (negsuc n)) = 0
amount_of (some (pos n)) = n

abbrev pub known_side : ℕ → Bool
known_side side = nat_beq side order_side_buy || nat_beq side order_side_sell

unfoldable pub supported_tick_size_e6 : ℕ → Bool
supported_tick_size_e6 t =
    nat_beq t 100000
    || nat_beq t 10000
    || nat_beq t 5000
    || nat_beq t 2500
    || nat_beq t 1000
    || nat_beq t 100

unfoldable pub normalize_order_amounts : ℕ → ℕ → Option ℤ → Fallible OrderError (ℕ × ℕ)
normalize_order_amounts side price_e6 size_e6 =
    let size = amount_of size_e6 in
    let product = price_e6 * size in
    let maker = (product + (order_price_scale_e6 - 1)) / order_price_scale_e6 in
    let taker = product / order_price_scale_e6 in
    if not (known_side side)
    then err bad_side
    else if nat_beq price_e6 0
        || leb order_price_scale_e6 price_e6
        || not (positive_uint256 size_e6)
    then err price_or_size_unbounded
    else if nat_beq side order_side_buy
    then (if fits_uint256 maker then ok (maker, size) else err amounts_exceed_uint256)
    else if ltb 0 taker && fits_uint256 taker
    then ok (size, taker)
    else err amounts_exceed_uint256

abbrev pub starts_with_zero : Text → Bool
starts_with_zero [] = false
starts_with_zero (c ∷ cs) = nat_beq c b'0'

abbrev pub canonical_value : Bool → Option ℤ → Bool
canonical_value allow_zero none = false
canonical_value allow_zero (some (negsuc n)) = false
canonical_value allow_zero (some (pos n)) = fits_uint256 n && (allow_zero || ltb 0 n)

unfoldable pub is_canonical_uint256 : Text → Bool → Bool
is_canonical_uint256 raw allow_zero =
    if nat_beq (length raw) 0
      || ltb max_uint256_decimal_digits (length raw)
      || not (text_beq (trim_space raw) raw)
      || (ltb 1 (length raw) && starts_with_zero raw)
    then false
    else canonical_value allow_zero (set_string raw)

-- The `switch` of `Validate`.
unfoldable pub validate : Order → Fallible OrderError Unit
validate o =
    if nat_beq o.maker 0 || nat_beq o.signer 0
    then err maker_and_signer_required
    else if ltb max_safe_order_salt o.salt
    then err salt_too_large
    else if not (is_canonical_uint256 o.token_id false)
        || not (is_canonical_uint256 o.maker_amount false)
        || not (is_canonical_uint256 o.taker_amount false)
    then err bad_amount_field
    else if not (known_side o.side)
    then err bad_side
    else if not (nat_beq o.signature_type order_signature_type_poly1271)
    then err bad_signature_type
    else if nat_beq o.timestamp 0 || ltb max_timestamp o.timestamp
    then err bad_timestamp
    else ok tt

-- The guards of `BuildOrder` ahead of the normalisation.
unfoldable pub check_input : BuildOrderInput → Fallible OrderError Unit
check_input i =
    if nat_beq i.maker 0 || nat_beq i.signer 0
    then err maker_and_signer_required
    else if not (positive_uint256 i.token_id)
    then err bad_token_id
    else if nat_beq i.price_e6 0 || leb order_price_scale_e6 i.price_e6
    then err bad_price
    else if not (positive_uint256 i.size_e6)
    then err bad_size
    else if not (nat_beq (amount_of i.size_e6 % order_size_grid_e6) 0)
    then err size_off_grid
    else if not (supported_tick_size_e6 i.tick_size_e6)
        || not (nat_beq (i.price_e6 % i.tick_size_e6) 0)
    then err price_off_grid
    else if not (known_side i.side)
    then err bad_side
    else if not (nat_beq i.signature_type order_signature_type_poly1271)
    then err bad_signature_type
    else if ltb max_safe_order_salt i.salt
    then err salt_too_large
    else if nat_beq i.timestamp 0 || ltb max_timestamp i.timestamp
    then err bad_timestamp
    else ok tt

abbrev pub order_of : BuildOrderInput → ℕ × ℕ → Order
order_of i (maker_amount, taker_amount) = record {
  salt = i.salt;
  maker = i.maker;
  signer = i.signer;
  token_id = decimal (amount_of i.token_id);
  maker_amount = decimal maker_amount;
  taker_amount = decimal taker_amount;
  side = i.side;
  signature_type = i.signature_type;
  timestamp = i.timestamp;
  metadata = i.metadata;
  builder = i.builder;
}

abbrev pub validated : Order → Fallible OrderError Order
validated o = validate o >>= λ _. ok o

unfoldable pub build_order : BuildOrderInput → Fallible OrderError Order
build_order i =
    check_input i >>= (λ _. normalize_order_amounts i.side i.price_e6 i.size_e6) >>= λ amounts.
    validated (order_of i amounts)

abbrev positive_value : Option ℤ → Fallible OrderError ℕ
positive_value none = err bad_amount_field
positive_value (some (negsuc n)) = err bad_amount_field
positive_value (some (pos n)) = if ltb 0 n && fits_uint256 n then ok n else err bad_amount_field

unfoldable pub parse_uint256 : Text → Fallible OrderError ℕ
parse_uint256 raw = positive_value (set_string raw)
