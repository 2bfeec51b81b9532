-- ===== src/Units/RoundTrip.antt =====
-- `Parse` reads back what `Format` prints (utils/units/units.go).
use superform_go_utils.Prelude.{
  ℕ, zero, suc, ◌+◌, ◌-◌, Bool, true, false, ◌&&◌, [], ◌∷◌, ◌++◌, some, Text, ltb, nat_beq, length,
  take, drop, replicate, decimal, ◌≡◌, refl, ap, sym, subst, ◌∙◌, ◌<◌, arith, Bool-cases, inl, inr,
  length-append, length-take, length-drop, length-replicate, take-append-drop,
}
use mathlib.Core.List.{append-nil}
use superform_go_utils.Prelude.Int.{ℤ, pos, negsuc, magnitude, is_negative, signed}
use superform_go_utils.Prelude.Decimals.{
  all_of, all_digits, is_digit, value_from, value_from-decimal, value_from-zeros,
  all_digits-decimal, all_of-append, all_of-replicate, all_of-weaken, length-reverse_onto,
}
use superform_go_utils.Prelude.{digits_up}
use superform_go_utils.Prelude.Spaces.{is_visible, trim_space_visible}
use superform_go_utils.Prelude.Fallible.{ok}
use superform_go_utils.Units.{
  format, parse, parse_signed, parse_parts, cut_sign, cut_point, trim_right_zeros, padded,
  with_fraction, sign_text, keep_digit,
}

signed-magnitude : (a : ℤ) → signed (is_negative a) (magnitude a) ≡ a
signed-magnitude (pos zero) = refl
signed-magnitude (pos (suc n)) = refl
signed-magnitude (negsuc n) = refl

keep_digit-zeros :
    (c : ℕ) (kept cs : Text) (k : ℕ)
    → kept ++ replicate k b'0' ≡ cs
    → (n : ℕ) × (keep_digit c kept ++ replicate n b'0' ≡ c ∷ cs)
keep_digit-zeros c [] cs k e = elim (Bool-cases (nat_beq c b'0')) [
  | inl zero_there ↦
      let same : c ≡ b'0' = ground arith in (suc k, rw zero_there (λ i. sym same i ∷ e i))
  | inr other ↦ (k, rw other (ap (◌∷◌ c) e))
]
keep_digit-zeros c (d ∷ ds) cs k e = (k, ap (◌∷◌ c) e)

-- What is trimmed are zeros.
trim_right_zeros-zeros : (s : Text) → (n : ℕ) × (trim_right_zeros s ++ replicate n b'0' ≡ s)
unfolding trim_right_zeros
trim_right_zeros-zeros [] = (0, refl)
trim_right_zeros-zeros (c ∷ cs) =
    let (k, e) = trim_right_zeros-zeros cs in keep_digit-zeros c (trim_right_zeros cs) cs k e

keep_digit-digits :
    (p : ℕ → Bool) (c : ℕ) (kept : Text)
    → p c ≡ true
    → all_of p kept ≡ true
    → all_of p (keep_digit c kept) ≡ true
unfolding all_of
keep_digit-digits p c [] h k = ground arith
keep_digit-digits p c (d ∷ ds) h k = ground arith

all_digits-trim_right_zeros :
    (s : Text) → all_digits s ≡ true → all_digits (trim_right_zeros s) ≡ true
unfolding trim_right_zeros all_of
all_digits-trim_right_zeros [] h = refl
all_digits-trim_right_zeros (c ∷ cs) h =
    keep_digit-digits is_digit c (trim_right_zeros cs) (ground arith)
      (all_digits-trim_right_zeros cs (ground arith))

-- Digits have no point.
cut_point-digits : (s t : Text) → all_digits s ≡ true → cut_point (s ++ (b'.' ∷ t)) ≡ (s, t)
unfolding cut_point all_of
cut_point-digits [] t h = refl
cut_point-digits (c ∷ cs) t h =
    let no_point : nat_beq c b'.' ≡ false = ground arith in
    let later : all_digits cs ≡ true = ground arith in
    rw (no_point, cut_point-digits cs t later) refl

cut_point_whole : (s : Text) → all_digits s ≡ true → cut_point s ≡ (s, [])
unfolding cut_point all_of
cut_point_whole [] h = refl
cut_point_whole (c ∷ cs) h =
    let no_point : nat_beq c b'.' ≡ false = ground arith in
    let later : all_digits cs ≡ true = ground arith in rw (no_point, cut_point_whole cs later) refl

cut_point-with_fraction :
    (whole frac : Text)
    → all_digits whole ≡ true
    → cut_point (with_fraction whole frac) ≡ (whole, frac)
unfolding with_fraction
cut_point-with_fraction whole [] h = cut_point_whole whole h
cut_point-with_fraction whole (c ∷ cs) h = cut_point-digits whole (c ∷ cs) h

-- Parsing what stands behind the sign: digits that split into a whole and a fraction.
parse_parts-value :
    (negative : Bool) (whole frac : Text) (k decimals : ℕ)
    → all_digits (whole ++ (frac ++ replicate k b'0')) ≡ true
    → length frac + k ≡ decimals
    → 0 < length whole
    → parse_parts negative whole frac decimals
      ≡ ok (signed negative (value_from 0 (whole ++ (frac ++ replicate k b'0'))))
unfolding parse_parts
parse_parts-value negative [] frac k decimals digits sized some_digit = absurd (ground arith)
parse_parts-value negative (c ∷ cs) frac k decimals digits sized some_digit =
    let fits : ltb decimals (length frac) ≡ false = ground arith in
    let rest : decimals - length frac ≡ k = omega arith in rw (fits, rest, digits) refl

-- The digits of `Format`, cut and trimmed, are the padded text.
parse_parts-padded :
    (negative : Bool) (s : Text) (d : ℕ)
    → all_digits s ≡ true
    → d < length s
    → parse_parts negative (take (length s - d) s) (trim_right_zeros (drop (length s - d) s)) d
      ≡ ok (signed negative (value_from 0 s))
parse_parts-padded negative s d digits big =
    let whole = take (length s - d) s in
    let frac = drop (length s - d) s in
    let (k, e) = trim_right_zeros-zeros frac in
    let joined : whole ++ (trim_right_zeros frac ++ replicate k b'0') ≡ s =
      ap (◌++◌ whole) e ∙ take-append-drop (length s - d) s in
    let sized : length (trim_right_zeros frac) + k ≡ d = omega (
      arith,
      ap length e,
      length-append (trim_right_zeros frac) (replicate k b'0'),
      length-replicate {A = ℕ} k b'0',
      length-drop (length s - d) s,
    ) in
    subst
      (λ t.
        parse_parts negative whole (trim_right_zeros frac) d
        ≡ ok (signed negative (value_from 0 t)))
      joined
      (parse_parts-value negative whole (trim_right_zeros frac) k d
        (subst (λ t. all_digits t ≡ true) (sym joined) digits) sized
        (omega (arith, length-take (length s - d) s)))

cut_sign-with_fraction :
    (negative : Bool) (whole frac : Text)
    → all_digits whole ≡ true
    → 0 < length whole
    → cut_sign (sign_text negative ++ with_fraction whole frac)
      ≡ (negative, with_fraction whole frac)
unfolding cut_sign with_fraction all_of
cut_sign-with_fraction negative [] frac digits some_digit = absurd (ground arith)
cut_sign-with_fraction true (c ∷ cs) frac digits some_digit = refl
cut_sign-with_fraction false (c ∷ cs) [] digits some_digit =
    let minus : nat_beq c b'-' ≡ false = ground arith in
    let plus : nat_beq c b'+' ≡ false = ground arith in rw (minus, plus) refl
cut_sign-with_fraction false (c ∷ cs) (f ∷ fs) digits some_digit =
    let minus : nat_beq c b'-' ≡ false = ground arith in
    let plus : nat_beq c b'+' ≡ false = ground arith in rw (minus, plus) refl

all_digits-visible : (s : Text) → all_digits s ≡ true → all_of is_visible s ≡ true
all_digits-visible s h = all_of-weaken is_digit is_visible s (λ c e. ground arith) h

all_of-point : (s : Text) → all_of is_visible s ≡ true → all_of is_visible (b'.' ∷ s) ≡ true
unfolding all_of
all_of-point s h = h

all_of-sign_text :
    (negative : Bool) (s : Text)
    → all_of is_visible s ≡ true
    → all_of is_visible (sign_text negative ++ s) ≡ true
unfolding all_of
all_of-sign_text true s h = h
all_of-sign_text false s h = h

decimal_nonempty : (n : ℕ) → 0 < length (decimal n)
unfolding decimal digits_up
decimal_nonempty n = omega (arith, length-reverse_onto (digits_up (suc n) n) [])

all_of-with_fraction-visible :
    (whole frac : Text)
    → all_digits whole ≡ true
    → all_digits frac ≡ true
    → all_of is_visible (with_fraction whole frac) ≡ true
unfolding with_fraction
all_of-with_fraction-visible whole [] hw hf = all_digits-visible whole hw
all_of-with_fraction-visible whole (c ∷ cs) hw hf =
    all_of-append is_visible whole (b'.' ∷ c ∷ cs)
    ∙ rw (all_digits-visible whole hw) (all_of-point (c ∷ cs) (all_digits-visible (c ∷ cs) hf))

-- A written amount is parsed by its parts.
parse_written :
    (negative : Bool) (whole frac : Text) (d : ℕ)
    → all_digits whole ≡ true
    → all_digits frac ≡ true
    → 0 < length whole
    → parse (sign_text negative ++ with_fraction whole frac) d ≡ parse_parts negative whole frac d
unfolding parse parse_signed
parse_written negative whole frac d hw hf some_digit =
    rw
      (
        trim_space_visible (sign_text negative ++ with_fraction whole frac) (
            all_of-sign_text negative (with_fraction whole frac)
              (all_of-with_fraction-visible whole frac hw hf)),
        cut_sign-with_fraction negative whole frac hw some_digit,
        cut_point-with_fraction whole frac hw,
      )
      refl

all_of-take-drop :
    (p : ℕ → Bool) (n : ℕ) (s : Text)
    → all_of p s ≡ true
    → (all_of p (take n s) ≡ true) × (all_of p (drop n s) ≡ true)
all_of-take-drop p n s h =
    let both : (all_of p (take n s) && all_of p (drop n s)) ≡ true =
      sym (all_of-append p (take n s) (drop n s)) ∙ ap (all_of p) (take-append-drop n s) ∙ h in
    (ground arith, ground arith)

all_digits-padded : (n d : ℕ) → all_digits (padded (decimal n) d) ≡ true
unfolding padded
all_digits-padded n d =
    all_of-append is_digit (replicate (d + 1 - length (decimal n)) b'0') (decimal n)
    ∙ rw (all_of-replicate is_digit (d + 1 - length (decimal n)) b'0' refl, all_digits-decimal n)
        refl

length-padded : (s : Text) (d : ℕ) → d < length (padded s d)
unfolding padded
length-padded s d = omega (
  arith,
  length-append (replicate (d + 1 - length s) b'0') s,
  length-replicate {A = ℕ} (d + 1 - length s) b'0',
)

value_from-padded : (n d : ℕ) → value_from 0 (padded (decimal n) d) ≡ n
unfolding padded
value_from-padded n d =
    value_from-zeros (d + 1 - length (decimal n)) (decimal n) ∙ value_from-decimal n

parse-format_padded :
    (negative : Bool) (n d : ℕ)
    → parse
        (sign_text negative
          ++ with_fraction
              (take (length (padded (decimal n) d) - d) (padded (decimal n) d))
              (trim_right_zeros (drop (length (padded (decimal n) d) - d) (padded (decimal n) d))))
        d
      ≡ ok (signed negative n)
parse-format_padded negative n d =
    let s = padded (decimal n) d in
    let point = length s - d in
    let (hw, hf) = all_of-take-drop is_digit point s (all_digits-padded n d) in
    parse_written negative (take point s) (trim_right_zeros (drop point s)) d hw
      (all_digits-trim_right_zeros (drop point s) hf)
      (omega (arith, length-take point s, length-padded (decimal n) d))
    ∙ parse_parts-padded negative s d (all_digits-padded n d) (length-padded (decimal n) d)
    ∙ ap (λ v. ok (signed negative v)) (value_from-padded n d)

parse-format_whole :
    (negative : Bool) (n : ℕ) → parse (sign_text negative ++ decimal n) 0 ≡ ok (signed negative n)
unfolding with_fraction all_of
parse-format_whole negative n =
    let s = decimal n in
    let some_digit : 0 < length s = decimal_nonempty n in
    parse_written negative s [] 0 (all_digits-decimal n) refl some_digit
    ∙ subst (λ t. parse_parts negative s [] 0 ≡ ok (signed negative (value_from 0 t)))
        (append-nil s)
        (parse_parts-value negative s [] 0 0 (ap all_digits (append-nil s) ∙ all_digits-decimal n)
          refl some_digit)
    ∙ ap (λ v. ok (signed negative v)) (value_from-decimal n)

-- `Parse` reads what `Format` prints, with any number of decimals, as the same amount.
pub parse-format :
    (amount : ℤ) (decimals : ℕ) → parse (format (some amount) decimals) decimals ≡ ok amount
unfolding format
parse-format amount zero =
    parse-format_whole (is_negative amount) (magnitude amount) ∙ ap ok (signed-magnitude amount)
parse-format amount (suc d) =
    parse-format_padded (is_negative amount) (magnitude amount) (suc d)
    ∙ ap ok (signed-magnitude amount)
