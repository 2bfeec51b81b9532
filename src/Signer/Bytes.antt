-- ===== src/Signer/Bytes.antt =====
-- The bytes of a number and of a signature's halves (evm/ethawskmssigner/signer.go).
use superform_go_utils.Prelude.{
  ℕ, zero, suc, ◌+◌, ◌-◌, ◌*◌, ◌/◌, ◌^◌, ◌≤◌, ◌<◌, [], ◌∷◌, ◌++◌, Text, nat_beq, length, replicate,
  reverse_onto, ◌≡◌, refl, ap, ◌∙◌, arith, Bool-cases, inl, inr, length-append, length-replicate,
}
use superform_go_utils.Prelude.Decimals.{length-reverse_onto}
use superform_go_utils.Signer.{
  bytes_value, bytes_up, to_bytes, trim_left_zeros, adjust_signature_length,
}

low_value : Text → ℕ
low_value [] = 0
low_value (c ∷ cs) = c + 256 * low_value cs

bytes_value-reverse_onto :
    (s t : Text) → bytes_value 0 (reverse_onto s t) ≡ bytes_value (low_value s) t
unfolding bytes_value reverse_onto low_value
bytes_value-reverse_onto [] t = refl
bytes_value-reverse_onto (c ∷ cs) t =
    bytes_value-reverse_onto cs (c ∷ t) ∙ ap (λ n. bytes_value n t) (omega arith)

low_value-bytes_up : (f n : ℕ) → n ≤ f → low_value (bytes_up f n) ≡ n
unfolding low_value bytes_up
low_value-bytes_up zero n h = ground arith
low_value-bytes_up (suc f) n h = ground (arith, low_value-bytes_up f (n / 256))

pub bytes_value-to_bytes : (n : ℕ) → bytes_value 0 (to_bytes n) ≡ n
unfolding to_bytes bytes_value
bytes_value-to_bytes n =
    bytes_value-reverse_onto (bytes_up n n) [] ∙ low_value-bytes_up n n (omega arith)

bytes_value-zeros : (k : ℕ) (s : Text) → bytes_value 0 (replicate k 0 ++ s) ≡ bytes_value 0 s
unfolding bytes_value
bytes_value-zeros zero s = refl
bytes_value-zeros (suc k) s = bytes_value-zeros k s

bytes_value-trim_left_zeros : (s : Text) → bytes_value 0 (trim_left_zeros s) ≡ bytes_value 0 s
unfolding bytes_value trim_left_zeros
bytes_value-trim_left_zeros [] = refl
bytes_value-trim_left_zeros (c ∷ cs) = elim (Bool-cases (nat_beq c 0)) [
  | inl nothing ↦
      let same : 0 * 256 + c ≡ 0 = ground arith in
      rw (nothing, same) (bytes_value-trim_left_zeros cs)
  | inr something ↦ rw something refl
]

-- Trimming and padding keep the number.
pub bytes_value-adjust_signature_length :
    (s : Text) → bytes_value 0 (adjust_signature_length s) ≡ bytes_value 0 s
unfolding adjust_signature_length
bytes_value-adjust_signature_length s =
    bytes_value-zeros (32 - length (trim_left_zeros s)) (trim_left_zeros s)
    ∙ bytes_value-trim_left_zeros s

pub length-adjust_signature_length :
    (s : Text) → length (trim_left_zeros s) ≤ 32 → length (adjust_signature_length s) ≡ 32
unfolding adjust_signature_length
length-adjust_signature_length s h = omega (
  arith,
  length-append (replicate (32 - length (trim_left_zeros s)) 0) (trim_left_zeros s),
  length-replicate {A = ℕ} (32 - length (trim_left_zeros s)) 0,
)

pub length-trim_left_zeros : (s : Text) → length (trim_left_zeros s) ≤ length s
unfolding trim_left_zeros
length-trim_left_zeros [] = omega arith
length-trim_left_zeros (c ∷ cs) = ground (arith, length-trim_left_zeros cs)

abbrev power_256 : ℕ → ℕ
power_256 zero = 1
power_256 (suc k) = 256 * power_256 k

length-bytes_up : (f k n : ℕ) → n < power_256 k → length (bytes_up f n) ≤ k
unfolding bytes_up
length-bytes_up zero k n h = omega arith
length-bytes_up (suc f) zero n h = ground arith
length-bytes_up (suc f) (suc k) n h = ground (arith, length-bytes_up f k (n / 256))

-- A number below 2^256 has at most 32 bytes.
pub length-to_bytes : (n : ℕ) → n < 2 ^ 256 → length (to_bytes n) ≤ 32
unfolding to_bytes
length-to_bytes n h =
    omega (arith, length-reverse_onto (bytes_up n n) [], length-bytes_up n 32 n (omega (arith, h)))
