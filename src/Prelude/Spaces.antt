-- ===== src/Prelude/Spaces.antt =====
-- `strings.TrimSpace`, over bytes: the white space of Unicode in UTF-8.
use superform_go_utils.Prelude.Tests.{if◌then◌else◌, leb, nat_beq}
use superform_go_utils.Prelude.Texts.{Text, reverse_onto}
use superform_go_utils.Prelude.Decimals.{all_of, all_of-reverse_onto, reverse_onto_twice}
use Prim.Native.Nat.{ℕ, zero, suc, ◌-◌}
use mathlib.Core.Path.{◌≡◌, refl, ◌∙◌}
use mathlib.Core.Bool.{Bool, true, ◌&&◌, ◌||◌}
use mathlib.Core.List.{[], ◌∷◌, append-nil}
use native.Mathlib.Omega.{arith}

abbrev ascii_space : ℕ → Bool
ascii_space c = nat_beq c 0x20 || (leb 0x09 c && leb c 0x0D)

-- U+0085 and U+00A0.
abbrev two_byte_space : ℕ → ℕ → Bool
two_byte_space a b = nat_beq a 0xC2 && (nat_beq b 0x85 || nat_beq b 0xA0)

-- U+1680, U+2000 to U+200A, U+2028, U+2029, U+202F, U+205F and U+3000.
abbrev three_byte_space : ℕ → ℕ → ℕ → Bool
three_byte_space a b c =
    (nat_beq a 0xE1 && nat_beq b 0x9A && nat_beq c 0x80)
    || (nat_beq a 0xE2
        && nat_beq b 0x80
        && ((leb 0x80 c && leb c 0x8A) || nat_beq c 0xA8 || nat_beq c 0xA9 || nat_beq c 0xAF))
    || (nat_beq a 0xE2 && nat_beq b 0x81 && nat_beq c 0x9F)
    || (nat_beq a 0xE3 && nat_beq b 0x80 && nat_beq c 0x80)

-- The length in bytes of the white space at the head, 0 if there is none.
space_ahead : Text → ℕ
space_ahead [] = 0
space_ahead (a ∷ []) = if ascii_space a then 1 else 0
space_ahead (a ∷ b ∷ []) = if ascii_space a then 1 else if two_byte_space a b then 2 else 0
space_ahead (a ∷ b ∷ c ∷ rest) =
    if ascii_space a
    then 1
    else if two_byte_space a b
    then 2
    else if three_byte_space a b c
    then 3
    else 0

-- The same at the end of a text that is given backwards.
space_behind : Text → ℕ
space_behind [] = 0
space_behind (a ∷ []) = if ascii_space a then 1 else 0
space_behind (a ∷ b ∷ []) = if ascii_space a then 1 else if two_byte_space b a then 2 else 0
space_behind (a ∷ b ∷ c ∷ rest) =
    if ascii_space a
    then 1
    else if two_byte_space b a
    then 2
    else if three_byte_space c b a
    then 3
    else 0

-- The first argument counts the bytes left of a white space that goes.
drop_spaces : (Text → ℕ) → ℕ → Text → Text
drop_spaces f k [] = []
drop_spaces f (suc k) (b ∷ bs) = drop_spaces f k bs
drop_spaces f zero (b ∷ bs) =
    let n = f (b ∷ bs) in
    let rest = drop_spaces f (n - 1) bs in if nat_beq n 0 then b ∷ bs else rest

unfoldable pub trim_space : Text → Text
unfolding drop_spaces space_ahead space_behind
trim_space s =
    reverse_onto (drop_spaces space_behind 0 (reverse_onto (drop_spaces space_ahead 0 s) [])) []

-- Graphic ASCII.
abbrev pub is_visible : ℕ → Bool
is_visible c = leb 0x21 c && leb c 0x7E

drop_spaces_ahead : (s : Text) → all_of is_visible s ≡ true → drop_spaces space_ahead 0 s ≡ s
unfolding drop_spaces space_ahead all_of
drop_spaces_ahead [] h = refl
drop_spaces_ahead (a ∷ []) h = ground arith
drop_spaces_ahead (a ∷ b ∷ []) h = ground arith
drop_spaces_ahead (a ∷ b ∷ c ∷ rest) h = ground arith

drop_spaces_behind : (s : Text) → all_of is_visible s ≡ true → drop_spaces space_behind 0 s ≡ s
unfolding drop_spaces space_behind all_of
drop_spaces_behind [] h = refl
drop_spaces_behind (a ∷ []) h = ground arith
drop_spaces_behind (a ∷ b ∷ []) h = ground arith
drop_spaces_behind (a ∷ b ∷ c ∷ rest) h = ground arith

-- A text of graphic ASCII has no white space to trim.
pub trim_space_visible : (s : Text) → all_of is_visible s ≡ true → trim_space s ≡ s
unfolding trim_space all_of reverse_onto
trim_space_visible s h =
    rw
      (
        drop_spaces_ahead s h,
        drop_spaces_behind (reverse_onto s []) (all_of-reverse_onto is_visible s [] h refl),
      )
      (reverse_onto_twice s [] [] ∙ append-nil s)
