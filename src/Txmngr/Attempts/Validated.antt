-- ===== src/Txmngr/Attempts/Validated.antt =====
-- What `validatePersistedAttempts` of evm/txmngr/txmngr.go establishes of a durable history.
use superform_go_utils.Prelude.{
  ℕ, List, [], ◌∷◌, none, some, Text, false, ◌==◌, nat_eq, ◌≡◌, refl, sym, ◌∙◌, ap, subst, All,
  arith, Option-cases, inl, inr,
}
use superform_go_utils.Txmngr.Types.{Address, Hash, SignedTx, TransactionAttempt, zero_address}
use superform_go_utils.Txmngr.Errors.{Failure}
use superform_go_utils.Txmngr.Action.{Result-cases, ok, err}
use superform_go_utils.Txmngr.Attempts.{
  check_signed, check_attempt, check_attempts, validate_persisted_attempts,
}

-- The attempt holds a transaction with its own hash, a nonce and a signer.
abbrev pub IsSigned : ℕ → Address → TransactionAttempt → Type 0
IsSigned nonce signer a =
    (signed : SignedTx) × (a.tx ≡ some signed)
    × (signed.hash ≡ a.hash)
    × (signed.nonce ≡ nonce)
    × (a.nonce ≡ nonce)
    × (signed.signer ≡ some signer)

-- The signer of an attempt is the one that its transaction recovers.
IsSigned-signer :
    (a : TransactionAttempt) (signed : SignedTx) (signer next nonce : ℕ)
    → a.tx ≡ some signed
    → signed.signer ≡ some signer
    → IsSigned nonce next a
    → next ≡ signer
IsSigned-signer a signed signer next nonce there by (signed', there', _, _, _, by') =
    let one : signed' ≡ signed = cc in
    let both : some next ≡ some signer = sym by' ∙ (ap (λ x. x.signer) one ∙ by) in cc

module _ (hash_hex : Hash → Text) (address_hex : Address → Text) where
  check_signed_sound :
      (nonce : ℕ) (sofar next : Address) (a : TransactionAttempt) (tx : SignedTx)
      → check_signed hash_hex address_hex nonce sofar a tx ≡ ok next
      → (tx.hash ≡ a.hash)
        × (tx.nonce ≡ nonce)
        × (a.nonce ≡ nonce)
        × (tx.signer ≡ some next)
        × ((sofar == zero_address) ≡ false → next ≡ sofar)
  unfolding check_signed
  check_signed_sound nonce sofar next a tx e = elim (Option-cases tx.signer) [
    | inl unsigned ↦ ground arith
    | inr (derived, signed) ↦ ground arith
  ]

  check_attempt-missing :
      (nonce : ℕ) (sofar next : Address) (a : TransactionAttempt)
      → a.tx ≡ none
      → ¬ (check_attempt hash_hex address_hex nonce sofar a ≡ ok next)
  unfolding check_attempt
  check_attempt-missing nonce sofar next a missing = rw (missing, check_attempt) (λ h. ground arith)

  check_attempt-signed :
      (nonce : ℕ) (sofar : Address) (a : TransactionAttempt) (signed : SignedTx)
      → a.tx ≡ some signed
      → check_attempt hash_hex address_hex nonce sofar a
        ≡ check_signed hash_hex address_hex nonce sofar a signed
  unfolding check_attempt
  check_attempt-signed nonce sofar a signed there = rw (there, check_attempt) refl

  check_attempt_sound :
      (nonce : ℕ) (sofar next : Address) (a : TransactionAttempt)
      → check_attempt hash_hex address_hex nonce sofar a ≡ ok next
      → IsSigned nonce next a × ((sofar == zero_address) ≡ false → next ≡ sofar)
  check_attempt_sound nonce sofar next a e = elim (Option-cases a.tx) [
    | inl missing ↦ absurd (check_attempt-missing nonce sofar next a missing e)
    | inr (signed, there) ↦
        let (hash, n, own, signer, kept) =
          check_signed_sound nonce sofar next a signed
            (sym (check_attempt-signed nonce sofar a signed there) ∙ e) in
        ((signed, there, hash, n, own, signer), kept)
  ]

  check_attempts-next :
      (nonce : ℕ) (sofar next : Address) (a : TransactionAttempt) (rest : List TransactionAttempt)
      → check_attempt hash_hex address_hex nonce sofar a ≡ ok next
      → check_attempts hash_hex address_hex nonce sofar (a ∷ rest)
        ≡ check_attempts hash_hex address_hex nonce next rest
  unfolding check_attempts
  check_attempts-next nonce sofar next a rest p = rw (p, check_attempts) refl

  check_attempts-refused :
      (nonce : ℕ) (sofar final : Address) (f : Failure) (a : TransactionAttempt)
      (rest : List TransactionAttempt)
      → check_attempt hash_hex address_hex nonce sofar a ≡ err f
      → ¬ (check_attempts hash_hex address_hex nonce sofar (a ∷ rest) ≡ ok final)
  unfolding check_attempts
  check_attempts-refused nonce sofar final f a rest p = rw (p, check_attempts) (λ h. ground arith)

  validate-accepted :
      (a : TransactionAttempt) (rest : List TransactionAttempt) (sender : Address) (nonce : ℕ)
      → validate_persisted_attempts hash_hex address_hex (a ∷ rest) ≡ ok (sender, nonce)
      → (a.nonce ≡ nonce)
        × (check_attempts hash_hex address_hex a.nonce zero_address (a ∷ rest) ≡ ok sender)
  unfolding validate_persisted_attempts
  validate-accepted a rest sender nonce e =
      elim (Result-cases (check_attempts hash_hex address_hex a.nonce zero_address (a ∷ rest))) [
        | inl (f, p) ↦ absurd (ground arith)
        | inr (s, p) ↦ (ground arith, p ∙ ap ok (ground arith))
      ]

  check_attempts_sound :
      (nonce : ℕ) (sofar final : Address) (attempts : List TransactionAttempt)
      → (sofar == zero_address) ≡ false
      → check_attempts hash_hex address_hex nonce sofar attempts ≡ ok final
      → (final ≡ sofar) × All (IsSigned nonce sofar) attempts
  unfolding check_attempts
  check_attempts_sound nonce sofar final [] known e = (ground arith, tt)
  check_attempts_sound nonce sofar final (a ∷ rest) known e =
      elim (Result-cases (check_attempt hash_hex address_hex nonce sofar a)) [
        | inl (f, p) ↦ absurd (check_attempts-refused nonce sofar final f a rest p e)
        | inr (next, p) ↦
            let (here, kept) = check_attempt_sound nonce sofar next a p in
            let same : next ≡ sofar = kept known in
            let later = check_attempts_sound nonce sofar final rest known (
              subst (λ n. check_attempts hash_hex address_hex nonce n rest ≡ ok final) same
                (sym (check_attempts-next nonce sofar next a rest p) ∙ e)) in
            (later.0, (subst (λ n. IsSigned nonce n a) same here, later.1))
      ]

-- If a history is accepted with a sender and a nonce, and the signer that the first attempt recovers
-- is not the zero address, then that signer is the sender, and every attempt of the history holds a
-- transaction with the attempt's own hash, that nonce, and that sender as its signer.
pub validate_persisted_attempts_sound :
    (hash_hex : Hash → Text) (address_hex : Address → Text) (a : TransactionAttempt)
    (rest : List TransactionAttempt) (signed : SignedTx) (signer sender : Address) (nonce : ℕ)
    → a.tx ≡ some signed
    → signed.signer ≡ some signer
    → (signer == zero_address) ≡ false
    → validate_persisted_attempts hash_hex address_hex (a ∷ rest) ≡ ok (sender, nonce)
    → (sender ≡ signer) × All (IsSigned nonce sender) (a ∷ rest)
validate_persisted_attempts_sound hash_hex address_hex a rest signed signer sender nonce there by
      known e =
    let accepted = validate-accepted hash_hex address_hex a rest sender nonce e in
    elim (Result-cases (check_attempt hash_hex address_hex a.nonce zero_address a)) [
      | inl (f, p) ↦ absurd (
          check_attempts-refused hash_hex address_hex a.nonce zero_address sender f a rest p
            accepted.1)
      | inr (next, p) ↦
          let (here, _) = check_attempt_sound hash_hex address_hex a.nonce zero_address next a p in
          let same = IsSigned-signer a signed signer next a.nonce there by here in
          let later =
            check_attempts_sound hash_hex address_hex a.nonce next sender rest
              (subst (λ x. (x == zero_address) ≡ false) (sym same) known)
              (sym (check_attempts-next hash_hex address_hex a.nonce zero_address next a rest p)
                ∙ accepted.1) in
          (
            later.0 ∙ same,
            (
              subst (λ x. IsSigned x sender a) accepted.0
                  (subst (λ x. IsSigned a.nonce x a) (sym later.0) here),
              subst (λ x. All (IsSigned x sender) rest) accepted.0
                  (subst (λ x. All (IsSigned a.nonce x) rest) (sym later.0) later.1),
            ),
          )
    ]
