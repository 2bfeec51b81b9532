-- ===== src/Txmngr/Message.antt =====
-- The bounded messages that a row keeps: `appendReconciliationError`, `broadcastAttemptReason`,
-- `messageHeadAndTail` and `messageTail` of evm/txmngr/txmngr.go, over the bytes of a text.
pub mod Boundaries
pub mod Bounds
use superform_go_utils.Prelude.{
  ℕ, zero, suc, ◌+◌, ◌-◌, ◌/◌, Bool, true, false, ◌&&◌, ◌||◌, not, [], ◌∷◌, ◌++◌, Option, none,
  some, Text, codes, leb, ltb, if◌then◌else◌, ◌==◌, nat_eq, length, take, drop, get_elem?, sprintf,
  nat_beq,
}

abbrev pub max_transaction_message_bytes : ℕ
max_transaction_message_bytes = 512

abbrev pub max_reconciliation_primary_bytes : ℕ
max_reconciliation_primary_bytes = max_transaction_message_bytes / 2

abbrev pub reconciliation_separator : Text
reconciliation_separator = codes "; reconciliation: "

abbrev pub message_omission_marker : Text
message_omission_marker = codes "..."

-- `utf8.RuneStart`
unfoldable pub rune_start : ℕ → Bool
rune_start b = not (leb 0x80 b && ltb b 0xC0)

abbrev pub within : ℕ → ℕ → ℕ → Bool
within lo hi b = leb lo b && leb b hi

abbrev tail_byte : ℕ → Bool
tail_byte = within 0x80 0xBF

-- The length in bytes of the well-formed UTF-8 sequence at the head, 0 if there is none.
unfoldable pub rune_length : Text → ℕ
rune_length [] = 0
rune_length (a ∷ []) = if ltb a 0x80 then 1 else 0
rune_length (a ∷ b ∷ []) =
    if ltb a 0x80 then 1 else if within 0xC2 0xDF a && tail_byte b then 2 else 0
rune_length (a ∷ b ∷ c ∷ []) =
    if ltb a 0x80
    then 1
    else if within 0xC2 0xDF a && tail_byte b
    then 2
    else if (a == 0xE0 && within 0xA0 0xBF b && tail_byte c)
        || (a == 0xED && within 0x80 0x9F b && tail_byte c)
        || ((within 0xE1 0xEC a || within 0xEE 0xEF a) && tail_byte b && tail_byte c)
    then 3
    else 0
rune_length (a ∷ b ∷ c ∷ d ∷ rest) =
    if ltb a 0x80
    then 1
    else if within 0xC2 0xDF a && tail_byte b
    then 2
    else if (a == 0xE0 && within 0xA0 0xBF b && tail_byte c)
        || (a == 0xED && within 0x80 0x9F b && tail_byte c)
        || ((within 0xE1 0xEC a || within 0xEE 0xEF a) && tail_byte b && tail_byte c)
    then 3
    else if (a == 0xF0 && within 0x90 0xBF b && tail_byte c && tail_byte d)
        || (a == 0xF4 && within 0x80 0x8F b && tail_byte c && tail_byte d)
        || (within 0xF1 0xF3 a && tail_byte b && tail_byte c && tail_byte d)
    then 4
    else 0

-- The first argument counts the bytes left of a sequence that is kept.
unfoldable pub valid_from : ℕ → Text → Text
valid_from k [] = []
valid_from (suc k) (b ∷ bs) = b ∷ valid_from k bs
valid_from zero (b ∷ bs) =
    let n = rune_length (b ∷ bs) in
    let rest = valid_from (n - 1) bs in if n == 0 then rest else b ∷ rest

-- `strings.ToValidUTF8(s, "")`
unfoldable pub to_valid_utf8 : Text → Text
to_valid_utf8 = valid_from 0

-- The loop that moves `start` to the next rune boundary, on the bytes from `start`.
unfoldable pub skip_to_rune_start : Text → Text
skip_to_rune_start [] = []
skip_to_rune_start (b ∷ bs) = if rune_start b then b ∷ bs else skip_to_rune_start bs

unfoldable pub message_tail : Text → ℕ → Text
message_tail message max_bytes =
    let valid = to_valid_utf8 message in
    if leb (length valid) max_bytes
    then valid
    else skip_to_rune_start (drop (length valid - max_bytes) valid)

abbrev pub starts_at : Option ℕ → Bool
starts_at none = true
starts_at (some b) = rune_start b

-- The loop that moves `headEnd` back to a rune boundary.
unfoldable pub head_end : Text → ℕ → ℕ
head_end message zero = zero
head_end message (suc n) =
    if starts_at (get_elem? message (suc n)) then suc n else head_end message n

unfoldable pub message_head_and_tail : Text → ℕ → Text
message_head_and_tail message max_bytes =
    let valid = to_valid_utf8 message in
    let content = max_bytes - length message_omission_marker in
    let tail = content / 2 in
    if max_bytes == 0
    then []
    else if leb (length valid) max_bytes
    then valid
    else if leb max_bytes (length message_omission_marker)
    then message_tail valid max_bytes
    else take (head_end valid (content - tail)) valid
      ++ (message_omission_marker ++ message_tail valid tail)

unfoldable pub transaction_message_tail : Text → Text
transaction_message_tail message = message_tail message max_transaction_message_bytes

is_prefix : Text → Text → Bool
is_prefix [] s = true
is_prefix (p ∷ ps) [] = false
is_prefix (p ∷ ps) (c ∷ cs) = nat_beq p c && is_prefix ps cs

-- `strings.Index`, with the length of the text for -1.
unfoldable pub index_or_length : Text → Text → ℕ
unfolding is_prefix
index_or_length [] sep = 0
index_or_length (c ∷ cs) sep = if is_prefix sep (c ∷ cs) then 0 else suc (index_or_length cs sep)

-- The part of `appendReconciliationError` past the test of the combined length.
unfoldable pub reconciliation_history : Text → Text → Text
reconciliation_history message combined =
    let primary_end = index_or_length message reconciliation_separator in
    let primary =
      message_head_and_tail (take primary_end message) max_reconciliation_primary_bytes in
    let tail_bytes =
      max_transaction_message_bytes - length primary - length reconciliation_separator in
    if tail_bytes == 0
    then transaction_message_tail combined
    else primary
      ++ (reconciliation_separator
          ++ message_tail (drop (primary_end + length reconciliation_separator) combined)
              tail_bytes)

unfoldable pub append_detail : Text → Text → Text
append_detail [] detail = transaction_message_tail detail
append_detail (c ∷ cs) detail =
    let combined = (c ∷ cs) ++ (reconciliation_separator ++ detail) in
    if leb (length combined) max_transaction_message_bytes
    then combined
    else reconciliation_history (c ∷ cs) combined

-- The error is given by its text; `none` is the nil error.
unfoldable pub append_reconciliation_error : Text → Option Text → Text
unfolding append_detail
append_reconciliation_error message none = transaction_message_tail (to_valid_utf8 message)
append_reconciliation_error message (some err) =
    append_detail (to_valid_utf8 message) (to_valid_utf8 err)

-- `hex` is the hash in hexadecimal.
unfoldable pub broadcast_attempt_reason : Text → Text → Text
broadcast_attempt_reason hex detail =
    let prefix = sprintf "broadcast attempt %s: " (hex ∷ []) in
    let detail_bytes = max_reconciliation_primary_bytes - length prefix in
    if detail_bytes == 0
    then message_head_and_tail prefix max_reconciliation_primary_bytes
    else prefix ++ message_head_and_tail detail detail_bytes
