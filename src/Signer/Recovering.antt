-- ===== src/Signer/Recovering.antt =====
-- A signature from the KMS recovers its key (evm/ethawskmssigner/signer.go).
use superform_go_utils.Prelude.{
  ℕ, ◌-◌, ◌/◌, ◌^◌, ◌≤◌, ◌<◌, true, false, [], ◌∷◌, ◌++◌, Option, none, some, Text, text_beq,
  text_beq_iff, ltb, length, ◌≡◌, refl, ap, sym, subst, ◌∙◌, arith, Bool-cases, inl, inr,
  length-append,
}
use superform_go_utils.Prelude.Fallible.{ok, ok_injective, err-ne-ok}
use superform_go_utils.Signer.{
  bytes_value, to_bytes, trim_left_zeros, adjust_signature_length, adjust_s, first_try, second_try,
  get_ethereum_signature, get_signature_from_kms, sign_message_hash,
}
use superform_go_utils.Signer.Bytes.{
  bytes_value-to_bytes, bytes_value-adjust_signature_length, length-adjust_signature_length,
  length-trim_left_zeros, length-to_bytes,
}

module _ (ecrecover : Text → Text → Option Text) (curve_order : ℕ) where
  -- The signature is r and s with a recovery id by which it recovers the expected key.
  abbrev Recovers : Text → Text → Text → Text → Type 0
  Recovers expected rs_signature tx_hash signature =
      (v : ℕ) × (v ≤ 1)
      × (signature ≡ rs_signature ++ (v ∷ []))
      × (ecrecover tx_hash signature ≡ some expected)

  recovered_by :
      (expected rs tx_hash signature recovered : Text) (v : ℕ)
      → v ≤ 1
      → ecrecover tx_hash (rs ++ (v ∷ [])) ≡ some recovered
      → text_beq recovered expected ≡ true
      → rs ++ (v ∷ []) ≡ signature
      → Recovers expected rs tx_hash signature
  recovered_by expected rs tx_hash signature recovered v small found equal same = (
    v,
    small,
    sym same,
    subst (λ t. ecrecover tx_hash t ≡ some expected) same
        (found ∙ ap some ((text_beq_iff recovered expected).0 equal)),
  )

  second_try-Recovers :
      (expected rs tx_hash signature : Text) (o : Option Text)
      → ecrecover tx_hash (rs ++ (1 ∷ [])) ≡ o
      → second_try ecrecover curve_order expected rs tx_hash o ≡ ok signature
      → Recovers expected rs tx_hash signature
  second_try-Recovers expected rs tx_hash signature none found h = absurd (err-ne-ok h)
  second_try-Recovers expected rs tx_hash signature (some recovered) found h =
      elim (Bool-cases (text_beq recovered expected)) [
        | inl equal ↦
            recovered_by expected rs tx_hash signature recovered 1 (omega arith) found equal
              (ok_injective (rw equal at h))
        | inr differs ↦ absurd (err-ne-ok (rw differs at h))
      ]

  first_try-Recovers :
      (expected rs tx_hash signature : Text) (o : Option Text)
      → ecrecover tx_hash (rs ++ (0 ∷ [])) ≡ o
      → first_try ecrecover curve_order expected rs tx_hash o ≡ ok signature
      → Recovers expected rs tx_hash signature
  first_try-Recovers expected rs tx_hash signature none found h = absurd (err-ne-ok h)
  first_try-Recovers expected rs tx_hash signature (some recovered) found h =
      elim (Bool-cases (text_beq recovered expected)) [
        | inl equal ↦
            recovered_by expected rs tx_hash signature recovered 0 (omega arith) found equal
              (ok_injective (rw equal at h))
        | inr differs ↦ second_try-Recovers expected rs tx_hash signature _ refl (rw differs at h)
      ]

  -- The adjusted S value is in the lower half, with at most 32 bytes.
  adjust_s-low :
      (s : Text)
      → bytes_value 0 s ≤ curve_order
      → bytes_value 0 (adjust_s ecrecover curve_order s) ≤ curve_order / 2
  unfolding adjust_s
  adjust_s-low s below = elim (Bool-cases (ltb (curve_order / 2) (bytes_value 0 s))) [
    | inl high ↦
        let positive : ltb curve_order (bytes_value 0 s) ≡ false = ground arith in
        rw (high, positive, bytes_value-to_bytes (curve_order - bytes_value 0 s)) (ground arith)
    | inr low ↦ rw low (ground arith)
  ]

  length-adjust_s :
      (s : Text)
      → bytes_value 0 s ≤ curve_order
      → curve_order < 2 ^ 256
      → length (trim_left_zeros s) ≤ 32
      → length (trim_left_zeros (adjust_s ecrecover curve_order s)) ≤ 32
  unfolding adjust_s
  length-adjust_s s below bounded short =
      elim (Bool-cases (ltb (curve_order / 2) (bytes_value 0 s))) [
        | inl high ↦
            let positive : ltb curve_order (bytes_value 0 s) ≡ false = ground arith in
            let n = curve_order - bytes_value 0 s in
            rw (high, positive)
              (omega (arith, length-trim_left_zeros (to_bytes n), length-to_bytes n (omega arith)))
        | inr low ↦ rw low short
      ]

  module _ {Key : Type 0} (marshal : Key → Text)
      (parse_signature : Text → Option (Text × Text)) where
    -- A signature that `SignMessageHash` returns has 65 bytes: r, s and a recovery id of 0 or 1 by
    -- which the key that signs is recovered, and its s is in the lower half of the curve's order. The
    -- KMS's r and s have at most 32 bytes without their leading zeros, s is at most the order, and the
    -- order is below 2^256.
    pub sign_message_hash-recovers :
        (key : Key) (message_hash answer r s signature : Text)
        → parse_signature answer ≡ some (r, s)
        → length (trim_left_zeros r) ≤ 32
        → length (trim_left_zeros s) ≤ 32
        → bytes_value 0 s ≤ curve_order
        → curve_order < 2 ^ 256
        → sign_message_hash ecrecover curve_order marshal parse_signature key message_hash
            (some answer)
          ≡ ok signature
        → (low_s : Text) × (v : ℕ) × (v ≤ 1)
          × (signature ≡ (adjust_signature_length r ++ low_s) ++ (v ∷ []))
          × (length signature ≡ 65)
          × (bytes_value 0 low_s ≤ curve_order / 2)
          × (ecrecover message_hash signature ≡ some (marshal key))
    unfolding sign_message_hash get_signature_from_kms get_ethereum_signature
    sign_message_hash-recovers key message_hash answer r s signature parsed short_r short_s below
          bounded h =
        let low_s = adjust_signature_length (adjust_s ecrecover curve_order s) in
        let rs = adjust_signature_length r ++ low_s in
        let (v, small, same, found) =
          first_try-Recovers (marshal key) rs message_hash signature _ refl (rw parsed at h) in
        (
          low_s,
          v,
          small,
          same,
          ap length same
              ∙ omega (
                arith,
                length-append rs (v ∷ []),
                length-append (adjust_signature_length r) low_s,
                length-adjust_signature_length r short_r,
                length-adjust_signature_length (adjust_s ecrecover curve_order s)
                    (length-adjust_s s below bounded short_s),
              ),
          omega (
            arith,
            bytes_value-adjust_signature_length (adjust_s ecrecover curve_order s),
            adjust_s-low s below,
          ),
          found,
        )
