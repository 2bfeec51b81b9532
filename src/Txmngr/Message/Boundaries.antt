-- ===== src/Txmngr/Message/Boundaries.antt =====
-- Where the cuts of `messageTail` in evm/txmngr/txmngr.go fall.
use superform_go_utils.Prelude.{
  ℕ, ◌-◌, true, false, [], ◌∷◌, Text, length, drop, get_elem?, ◌≡◌, refl, arith, nat_beq,
  Bool-cases, inl, inr, ltb,
}
use superform_go_utils.Txmngr.Message.{
  skip_to_rune_start, message_tail, to_valid_utf8, valid_from, rune_length, rune_start, starts_at,
  within,
}

skip_to_rune_start-starts : (s : Text) → starts_at (get_elem? (skip_to_rune_start s) 0) ≡ true
unfolding skip_to_rune_start
skip_to_rune_start-starts [] = refl
skip_to_rune_start-starts (b ∷ bs) = ground (arith, skip_to_rune_start-starts bs)

-- The tests of a lead byte all refuse a continuation byte.
continuation-tests :
    (b : ℕ)
    → rune_start b ≡ false
    → (ltb b 0x80 ≡ false)
      × (within 0xC2 0xDF b ≡ false)
      × (nat_beq b 0xE0 ≡ false)
      × (nat_beq b 0xED ≡ false)
      × (within 0xE1 0xEC b ≡ false)
      × (within 0xEE 0xEF b ≡ false)
      × (nat_beq b 0xF0 ≡ false)
      × (nat_beq b 0xF4 ≡ false)
      × (within 0xF1 0xF3 b ≡ false)
unfolding rune_start
continuation-tests b h = (
  ground arith,
  ground arith,
  ground arith,
  ground arith,
  ground arith,
  ground arith,
  ground arith,
  ground arith,
  ground arith,
)

-- No well-formed sequence begins with a continuation byte.
rune_length-continuation : (b : ℕ) (bs : Text) → rune_start b ≡ false → rune_length (b ∷ bs) ≡ 0
unfolding rune_length
rune_length-continuation b [] h = let t = continuation-tests b h in rw t.0 refl
rune_length-continuation b (c ∷ []) h = let t = continuation-tests b h in rw (t.0, t.1) refl
rune_length-continuation b (c ∷ d ∷ []) h =
    let t = continuation-tests b h in rw (t.0, t.1, t.2, t.3, t.4, t.5) refl
rune_length-continuation b (c ∷ d ∷ e ∷ rest) h =
    let t = continuation-tests b h in rw (t.0, t.1, t.2, t.3, t.4, t.5, t.6, t.7, t.8) refl

to_valid_utf8-starts : (s : Text) → starts_at (get_elem? (valid_from 0 s) 0) ≡ true
unfolding valid_from
to_valid_utf8-starts [] = refl
to_valid_utf8-starts (b ∷ bs) = elim (Bool-cases (nat_beq (rune_length (b ∷ bs)) 0)) [
  | inl e ↦
      let none_there : rune_length (b ∷ bs) ≡ 0 = ground arith in
      rw none_there (to_valid_utf8-starts bs)
  | inr e ↦ elim (Bool-cases (rune_start b)) [
    | inl starts ↦ rw e starts
    | inr inside ↦ absurd (ground (arith, rune_length-continuation b bs inside))
  ]
]

-- A bounded tail starts at a rune boundary: the cut leaves no continuation byte without its lead.
pub message_tail-boundary : (s : Text) (n : ℕ) → starts_at (get_elem? (message_tail s n) 0) ≡ true
unfolding message_tail to_valid_utf8
message_tail-boundary s n = ground (
  arith,
  to_valid_utf8-starts s,
  skip_to_rune_start-starts (drop (length (valid_from 0 s) - n) (valid_from 0 s)),
)
