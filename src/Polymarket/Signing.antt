-- ===== src/Polymarket/Signing.antt =====
-- From the input of an order to its digest (utils/polymarket/order.go).
use superform_go_utils.Prelude.{ℕ, ◌<◌, true, List, Option, Text, ◌≡◌, refl, inl, inr}
use superform_go_utils.Prelude.BigInt.{fits_uint256}
use superform_go_utils.Prelude.Fallible.{Fallible, ok, ◌>>=◌, Fallible-cases}
use superform_go_utils.Polymarket.{
  Hash, OrderError, BuildOrderInput, order_of, check_input, normalize_order_amounts, build_order,
  amount_of,
}
use superform_go_utils.Polymarket.Amounts.{normalize_order_amounts_sound}
use superform_go_utils.Polymarket.Building.{
  build_order-accepts, validate-order_of, check_input_sound, parse_uint256-decimal, token_id-bounds,
  Copied,
}
use superform_go_utils.Polymarket.Digest.{AbiValue, exchange, pack_domain, pack_order, digest, hash}

module _ (keccak256 : Text → Hash) (bytes_of : Hash → Text)
    (pack : List AbiValue → Option Text) where
  -- What is signed, from the numbers of the input: no text is read.
  abbrev pub digest_of_amounts : BuildOrderInput → Text → ℕ × ℕ → Fallible OrderError Hash
  digest_of_amounts i market_type (maker_amount, taker_amount) =
      exchange market_type >>= λ contract.
      pack_domain keccak256 bytes_of pack contract >>= λ domain_encoded.
      pack_order keccak256 bytes_of pack (order_of i (maker_amount, taker_amount))
        (amount_of i.token_id) maker_amount taker_amount
      >>= λ order_encoded. ok (digest keccak256 bytes_of pack domain_encoded order_encoded)

  hash-order_of :
      (i : BuildOrderInput) (market_type : Text) (maker taker : ℕ)
      → Copied i
      → (0 < maker) × (fits_uint256 maker ≡ true) × (0 < taker) × (fits_uint256 taker ≡ true)
      → hash keccak256 bytes_of pack (order_of i (maker, taker)) market_type
        ≡ digest_of_amounts i market_type (maker, taker)
  unfolding hash Copied
  hash-order_of i market_type maker taker copied (mp, mf, tp, tf) =
      let (addresses, salt, side, kind, time, token) = copied in
      let (ip, if') = token_id-bounds i.token_id token in
      elim (Fallible-cases (exchange market_type)) [
        | inl (e, unknown) ↦
            rw (validate-order_of i maker taker copied (mp, mf, tp, tf), unknown) refl
        | inr (contract, known) ↦
            elim (Fallible-cases (pack_domain keccak256 bytes_of pack contract)) [
              | inl (e, failed) ↦
                  rw (validate-order_of i maker taker copied (mp, mf, tp, tf), known, failed) refl
              | inr (domain_encoded, packed) ↦
                  rw
                    (
                      validate-order_of i maker taker copied (mp, mf, tp, tf),
                      known,
                      packed,
                      parse_uint256-decimal (amount_of i.token_id) ip if',
                      parse_uint256-decimal maker mp mf,
                      parse_uint256-decimal taker tp tf,
                    )
                    refl
            ]
      ]

  -- Building an order and hashing it signs the numbers of the input: the decimal texts in between
  -- lose nothing, and the only failures are those of the input's checks, of the normalisation, of an
  -- unknown market and of the encoder.
  pub hash-build_order :
      (i : BuildOrderInput) (market_type : Text)
      → (build_order i >>= λ o. hash keccak256 bytes_of pack o market_type) ≡ (
          check_input i
          >>= (λ _. normalize_order_amounts i.side i.price_e6 i.size_e6)
          >>= λ amounts. digest_of_amounts i market_type amounts)
  hash-build_order i market_type =
      rw (build_order-accepts i) (elim (Fallible-cases (check_input i)) [
        | inl (e, refused) ↦ rw refused refl
        | inr (u, passed) ↦
            elim (Fallible-cases (normalize_order_amounts i.side i.price_e6 i.size_e6)) [
              | inl (e, refused) ↦ rw (passed, refused) refl
              | inr ((maker, taker), amounts) ↦
                  rw (passed, amounts)
                    (hash-order_of i market_type maker taker (check_input_sound i passed) (
                      normalize_order_amounts_sound i.side i.price_e6 maker taker i.size_e6
                        amounts))
            ]
      ])
