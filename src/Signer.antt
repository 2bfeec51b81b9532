-- ===== src/Signer.antt =====
-- Signing with AWS KMS: evm/ethawskmssigner/signer.go and pk_cache.go. The KMS, DER, the curve and its
-- order, and the recovery of a key are parameters; a call of the KMS is given by its answer.
pub mod Bytes
pub mod Recovering
mod Tests
use superform_go_utils.Prelude.{
  ℕ, zero, suc, ◌+◌, ◌-◌, ◌*◌, ◌/◌, ◌%◌, Bool, true, false, not, List, [], ◌∷◌, ◌++◌, Option, none,
  some, Text, text_eq, nat_eq, ◌==◌, Eq, ltb, nat_beq, text_beq, if◌then◌else◌, length, replicate,
  reverse_onto, Assoc, lookup, insert,
}
use superform_go_utils.Prelude.Fallible.{Fallible, ok, err, ◌>>=◌}

abbrev pub Address : Type 0
Address = ℕ

pub data SignError : Type 0 where
  kms_failed bad_der bad_public_key no_chain_id not_authorized unrecoverable wrong_key : SignError

-- `SetBytes`, behind what was read so far.
unfoldable pub bytes_value : ℕ → Text → ℕ
bytes_value acc [] = acc
bytes_value acc (c ∷ cs) = bytes_value (acc * 256 + c) cs

-- The bytes of a number, the least first, on fuel; `n` rounds are enough.
unfoldable pub bytes_up : ℕ → ℕ → Text
bytes_up zero n = []
bytes_up (suc f) n = let rest = bytes_up f (n / 256) in if nat_beq n 0 then [] else (n % 256) ∷ rest

-- `Bytes`
unfoldable pub to_bytes : ℕ → Text
unfolding bytes_up
to_bytes n = reverse_onto (bytes_up n n) []

-- `bytes.TrimLeft(buffer, "\x00")`
unfoldable pub trim_left_zeros : Text → Text
trim_left_zeros [] = []
trim_left_zeros (c ∷ cs) = let rest = trim_left_zeros cs in if nat_beq c 0 then rest else c ∷ cs

unfoldable pub adjust_signature_length : Text → Text
adjust_signature_length buffer =
    let trimmed = trim_left_zeros buffer in replicate (32 - length trimmed) 0 ++ trimmed

-- `|a - b|`: `Bytes` of a difference drops its sign.
abbrev distance : ℕ → ℕ → ℕ
distance a b = if ltb a b then b - a else a - b

module _ (ecrecover : Text → Text → Option Text) (curve_order : ℕ) where
  -- The S value of Ethereum's standard.
  unfoldable pub adjust_s : Text → Text
  adjust_s s =
      let value = bytes_value 0 s in
      if ltb (curve_order / 2) value then to_bytes (distance curve_order value) else s

  -- A second try with the recovery id 1.
  abbrev pub second_try : Text → Text → Text → Option Text → Fallible SignError Text
  second_try expected rs_signature tx_hash none = err unrecoverable
  second_try expected rs_signature tx_hash (some recovered) =
      if text_beq recovered expected then ok (rs_signature ++ (1 ∷ [])) else err wrong_key

  abbrev pub first_try : Text → Text → Text → Option Text → Fallible SignError Text
  first_try expected rs_signature tx_hash none = err unrecoverable
  first_try expected rs_signature tx_hash (some recovered) =
      if text_beq recovered expected
      then ok (rs_signature ++ (0 ∷ []))
      else second_try expected rs_signature tx_hash (ecrecover tx_hash (rs_signature ++ (1 ∷ [])))

  unfoldable pub get_ethereum_signature : Text → Text → Text → Text → Fallible SignError Text
  get_ethereum_signature expected tx_hash r s =
      let rs_signature = adjust_signature_length r ++ adjust_signature_length s in
      first_try expected rs_signature tx_hash (ecrecover tx_hash (rs_signature ++ (0 ∷ [])))

  module _ {Key : Type 0} (marshal : Key → Text)
      (parse_signature : Text → Option (Text × Text)) where
    abbrev parsed : Option (Text × Text) → Fallible SignError (Text × Text)
    parsed none = err bad_der
    parsed (some rs) = ok rs

    abbrev answered_by : Option Text → Fallible SignError Text
    answered_by none = err kms_failed
    answered_by (some signature) = ok signature

    -- `signed` is the KMS's answer.
    unfoldable pub get_signature_from_kms : Option Text → Fallible SignError (Text × Text)
    get_signature_from_kms signed =
        answered_by signed >>= λ signature. parsed (parse_signature signature)

    unfoldable pub sign_message_hash : Key → Text → Option Text → Fallible SignError Text
    sign_message_hash key message_hash signed = get_signature_from_kms signed >>= λ rs.
        get_ethereum_signature (marshal key) message_hash rs.0 (adjust_s rs.1)

    -- The signer of the transactor: `tx_hash` is the transaction's hash for the chain, and the result
    -- the signature that the transaction gets.
    unfoldable pub sign_transaction :
        (Key → Address) → Key → Address → Text → Option Text → Fallible SignError Text
    unfolding sign_message_hash
    sign_transaction address_of key address tx_hash signed =
        if not (nat_beq address (address_of key))
        then err not_authorized
        else sign_message_hash key tx_hash signed

module _ {Key : Type 0} (parse_public_key : Text → Option Text)
    (unmarshal : Text → Option Key) where
  abbrev key_bytes : Option Text → Fallible SignError Text
  key_bytes none = err kms_failed
  key_bytes (some der) = elim (parse_public_key der) [ none ↦ err bad_der | some b ↦ ok b ]

  abbrev key_of : Option Key → Fallible SignError Key
  key_of none = err bad_public_key
  key_of (some key) = ok key

  abbrev cached :
      Text → Assoc Text Key → Fallible SignError Key → Fallible SignError Key × Assoc Text Key
  cached key_id cache (err e) = (err e, cache)
  cached key_id cache (ok key) = (ok key, insert key_id key cache)

  -- `answer` is the KMS's public key in DER.
  unfoldable pub get_pub_key :
      Text → Option Text → Assoc Text Key → Fallible SignError Key × Assoc Text Key
  get_pub_key key_id answer cache = elim (lookup key_id cache) [
    | some key ↦ (ok key, cache)
    | none ↦ cached key_id cache (key_bytes answer >>= λ b. key_of (unmarshal b))
  ]

  abbrev with_chain :
      (Key → Address) → Option ℕ → Fallible SignError Key → Fallible SignError Address
  with_chain address_of chain_id (err e) = err e
  with_chain address_of none (ok key) = err no_chain_id
  with_chain address_of (some chain_id) (ok key) = ok (address_of key)

  -- The address of the new transactor; its signer is `sign_transaction`.
  unfoldable pub new_aws_kms_transactor_with_chain_id :
      (Key → Address)
      → Text
      → Option Text
      → Option ℕ
      → Assoc Text Key
      → Fallible SignError Address × Assoc Text Key
  unfolding get_pub_key
  new_aws_kms_transactor_with_chain_id address_of key_id answer chain_id cache =
      let (key, kept) = get_pub_key key_id answer cache in
      (with_chain address_of chain_id key, kept)
