-- ===== src/Polymarket/Digest.antt =====
-- The EIP-712 digest of an order: `Order.Hash` of utils/polymarket/order.go, and the market families
-- of utils/polymarket/constants.go. Keccak-256, the ABI encoder and the bytes of a hash are
-- parameters.
use superform_go_utils.Prelude.{
  ℕ, Bool, true, false, List, [], ◌∷◌, ◌++◌, Option, none, some, Text, codes, text_beq,
  if◌then◌else◌,
}
use superform_go_utils.Prelude.Fallible.{Fallible, ok, err, ◌>>=◌}
use superform_go_utils.Polymarket.{
  Address, Hash, OrderError, Order, validate, parse_uint256, polygon_chain_id,
}

abbrev market_type_standard : Text
market_type_standard = codes "STANDARD"

abbrev market_type_neg_risk : Text
market_type_neg_risk = codes "NEG_RISK"

abbrev standard_exchange_contract : Address
standard_exchange_contract = 0xe111180000d2663c0091e4f400237545b87b996b

abbrev neg_risk_exchange_contract : Address
neg_risk_exchange_contract = 0xe2222d279d744050d28e00520010520000310f59

unfoldable pub parse_market_type : Text → Fallible OrderError Text
parse_market_type value =
    if text_beq value market_type_standard
    then ok value
    else if text_beq value market_type_neg_risk
    then ok value
    else err OrderError.unsupported_market

unfoldable pub exchange : Text → Fallible OrderError Address
exchange m =
    if text_beq m market_type_standard
    then ok standard_exchange_contract
    else if text_beq m market_type_neg_risk
    then ok neg_risk_exchange_contract
    else err OrderError.unsupported_market

unfoldable pub is_neg_risk : Text → Fallible OrderError Bool
is_neg_risk m =
    if text_beq m market_type_standard
    then ok false
    else if text_beq m market_type_neg_risk
    then ok true
    else err OrderError.unsupported_market

-- The arguments that the encoder is given, with their ABI types.
pub data AbiValue : Type 0 where
  bytes32 uint256 address uint8 : ℕ → AbiValue

abbrev pub pack_error : Option Text → Fallible OrderError Text
pack_error none = err OrderError.encoding_failed
pack_error (some encoded) = ok encoded

module _ (keccak256 : Text → Hash) (bytes_of : Hash → Text)
    (pack : List AbiValue → Option Text) where
  abbrev pub order_type_hash : Hash
  order_type_hash = keccak256 (
      codes
        "Order(uint256 salt,address maker,address signer,uint256 tokenId,uint256 makerAmount,uint256 takerAmount,uint8 side,uint8 signatureType,uint256 timestamp,bytes32 metadata,bytes32 builder)")

  abbrev pub domain_type_hash : Hash
  domain_type_hash =
      keccak256
        (codes "EIP712Domain(string name,string version,uint256 chainId,address verifyingContract)")

  abbrev pub pack_domain : Address → Fallible OrderError Text
  pack_domain contract = pack_error (
      pack (
        bytes32 domain_type_hash
        ∷ bytes32 (keccak256 (codes "Polymarket CTF Exchange"))
        ∷ bytes32 (keccak256 (codes "2"))
        ∷ uint256 polygon_chain_id
        ∷ address contract
        ∷ []))

  abbrev pub pack_order : Order → ℕ → ℕ → ℕ → Fallible OrderError Text
  pack_order o token_id maker_amount taker_amount = pack_error (
      pack (
        bytes32 order_type_hash
        ∷ uint256 o.salt
        ∷ address o.maker
        ∷ address o.signer
        ∷ uint256 token_id
        ∷ uint256 maker_amount
        ∷ uint256 taker_amount
        ∷ uint8 o.side
        ∷ uint8 o.signature_type
        ∷ uint256 o.timestamp
        ∷ bytes32 o.metadata
        ∷ bytes32 o.builder
        ∷ []))

  abbrev pub digest : Text → Text → Hash
  digest domain_encoded order_encoded =
      keccak256
        (0x19 ∷ 0x01 ∷ (bytes_of (keccak256 domain_encoded) ++ bytes_of (keccak256 order_encoded)))

  unfoldable pub hash : Order → Text → Fallible OrderError Hash
  hash o market_type = validate o >>= λ _. exchange market_type >>= λ contract.
      pack_domain contract >>= λ domain_encoded. parse_uint256 o.token_id >>= λ token_id.
      parse_uint256 o.maker_amount >>= λ maker_amount.
      parse_uint256 o.taker_amount >>= λ taker_amount.
      pack_order o token_id maker_amount taker_amount >>= λ order_encoded.
      ok (digest domain_encoded order_encoded)
