-- ===== src/Signer/Tests.antt =====
-- Signing at a concrete input, with a small curve order (evm/ethawskmssigner/signer.go).
use superform_go_utils.Prelude.{
  ℕ, ◌/◌, ◌≤◌, [], ◌∷◌, ◌++◌, Option, some, Text, length, replicate, reverse_onto, text_beq, ◌≡◌,
  refl, arith,
}
use superform_go_utils.Prelude.Fallible.{ok}
use superform_go_utils.Signer.{
  bytes_value, bytes_up, to_bytes, trim_left_zeros, adjust_signature_length, adjust_s,
  sign_message_hash, get_signature_from_kms, get_ethereum_signature,
}
use superform_go_utils.Signer.Recovering.{sign_message_hash-recovers}

abbrev sample_recover : Text → Text → Option Text
sample_recover message_hash signature = some (9 ∷ [])

abbrev sample_marshal : ℕ → Text
sample_marshal key = key ∷ []

abbrev sample_parse : Text → Option (Text × Text)
sample_parse answer = some (1 ∷ [], 5 ∷ [])

-- The order is 7, so the s of 5 becomes 2.
abbrev sample_signature : Text
sample_signature = ((replicate 31 0 ++ (1 ∷ [])) ++ (replicate 31 0 ++ (2 ∷ []))) ++ (0 ∷ [])

sample_signature_made :
    sign_message_hash sample_recover 7 sample_marshal sample_parse 9 (3 ∷ []) (some (4 ∷ []))
    ≡ ok sample_signature
unfolding sign_message_hash get_signature_from_kms get_ethereum_signature adjust_signature_length
    adjust_s trim_left_zeros bytes_value to_bytes bytes_up reverse_onto text_beq
sample_signature_made = refl

sign_message_hash-recovers_example :
    (low_s : Text) × (v : ℕ) × (v ≤ 1)
    × (sample_signature ≡ (adjust_signature_length (1 ∷ []) ++ low_s) ++ (v ∷ []))
    × (length sample_signature ≡ 65)
    × (bytes_value 0 low_s ≤ 7 / 2)
    × (sample_recover (3 ∷ []) sample_signature ≡ some (sample_marshal 9))
unfolding trim_left_zeros bytes_value
sign_message_hash-recovers_example =
    sign_message_hash-recovers sample_recover 7 sample_marshal sample_parse 9 (3 ∷ []) (4 ∷ [])
      (1 ∷ []) (5 ∷ []) sample_signature refl (omega arith) (omega arith) (omega arith)
      (omega arith) sample_signature_made
