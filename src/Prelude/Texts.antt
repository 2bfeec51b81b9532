-- ===== src/Prelude/Texts.antt =====
-- Texts as the lists of their bytes.
use Prim.Native.Nat.{ℕ, zero, suc, ◌+◌, ◌/◌, ◌%◌, compare, Ordering}
use Prim.Native.Char.{code}
use Prim.Native.String.{String}
use mathlib.Core.Path.{◌≡◌, refl}
use mathlib.Core.Logic.{◌↔◌}
use mathlib.Core.Bool.{Bool, true, false, ◌&&◌}
use mathlib.Core.List.{List, [], ◌∷◌, ◌++◌}
use native.Mathlib.Omega.{arith}
use superform_go_utils.Prelude.Tests.{if◌then◌else◌, nat_beq, ltb, Eq}

abbrev pub Text : Type 0
Text = List ℕ

-- The bytes of an ASCII literal.
abbrev pub codes : String → Text
codes String.[] = []
codes (String.◌∷◌ c s) = code c ∷ codes s

unfoldable pub text_beq : Text → Text → Bool
text_beq [] [] = true
text_beq [] (b ∷ bs) = false
text_beq (a ∷ as') [] = false
text_beq (a ∷ as') (b ∷ bs) = nat_beq a b && text_beq as' bs

pub text_beq_iff : (s t : Text) → (text_beq s t ≡ true) ↔ (s ≡ t)
unfolding text_beq
text_beq_iff [] [] = ((λ h. refl), (λ h. refl))
text_beq_iff [] (b ∷ bs) = ((λ h. cc), (λ h. cc))
text_beq_iff (a ∷ as') [] = ((λ h. cc), (λ h. cc))
text_beq_iff (a ∷ as') (b ∷ bs) =
    ((λ h. ground (arith, text_beq_iff as' bs)), (λ h. ground (arith, text_beq_iff as' bs)))

instance abbrev pub text_eq : Eq Text
text_eq = record { same = text_beq; same_iff = text_beq_iff }

-- `strings.Compare`
unfoldable pub compare_text : Text → Text → Ordering
compare_text [] [] = Ordering.eq
compare_text [] (b ∷ bs) = Ordering.lt
compare_text (a ∷ as') [] = Ordering.gt
compare_text (a ∷ as') (b ∷ bs) =
    let rest = compare_text as' bs in
    elim (compare a b) [
      | Ordering.lt ↦ Ordering.lt
      | Ordering.eq ↦ rest
      | Ordering.gt ↦ Ordering.gt
    ]

-- The digits of a number, least significant first, on fuel; `n + 1` rounds are enough.
unfoldable pub digits_up : ℕ → ℕ → Text
digits_up zero n = []
digits_up (suc f) n =
    let rest = digits_up f (n / 10) in (b'0' + n % 10) ∷ (if ltb n 10 then [] else rest)

unfoldable pub reverse_onto : Text → Text → Text
reverse_onto [] acc = acc
reverse_onto (x ∷ xs) acc = reverse_onto xs (x ∷ acc)

-- `%d` of a number that is not negative.
unfoldable pub decimal : ℕ → Text
unfolding digits_up reverse_onto
decimal n = reverse_onto (digits_up (suc n) n) []

-- `fmt.Sprintf`: each two-byte verb is replaced by the next rendered argument.
format_codes : Text → List Text → Text
format_codes [] args = []
format_codes (c ∷ []) args = c ∷ []
format_codes (c ∷ v ∷ rest) [] = c ∷ format_codes (v ∷ rest) []
format_codes (c ∷ v ∷ rest) (a ∷ args) =
    let verb = a ++ format_codes rest args in
    let plain = c ∷ format_codes (v ∷ rest) (a ∷ args) in if nat_beq c b'%' then verb else plain

unfoldable pub sprintf : String → List Text → Text
unfolding format_codes
sprintf s args = format_codes (codes s) args

sprintf_test : sprintf "nonce %d of %s" (decimal 120 ∷ codes "me" ∷ []) ≡ codes "nonce 120 of me"
unfolding sprintf decimal
sprintf_test = refl
