-- ===== src/Txmngr/Message/Bounds.antt =====
-- The bounds of the messages that a row keeps (`messageTail`, `messageHeadAndTail`,
-- `appendReconciliationError`, `broadcastAttemptReason` of evm/txmngr/txmngr.go), in bytes.
use superform_go_utils.Prelude.{
  ℕ, zero, suc, ◌+◌, ◌-◌, ◌/◌, [], ◌∷◌, ◌++◌, Option, none, some, Text, nat_eq, length, take, drop,
  ◌≤◌, ◌<◌, arith, length-append, length-take, length-drop, sprintf,
}
use superform_go_utils.Txmngr.Message.{
  skip_to_rune_start, message_tail, head_end, message_head_and_tail, transaction_message_tail,
  append_reconciliation_error, broadcast_attempt_reason, reconciliation_history,
  max_transaction_message_bytes, message_omission_marker, append_detail, index_or_length,
  reconciliation_separator, max_reconciliation_primary_bytes, to_valid_utf8,
}

length-skip_to_rune_start : (s : Text) → length (skip_to_rune_start s) ≤ length s
unfolding skip_to_rune_start
length-skip_to_rune_start [] = ground arith
length-skip_to_rune_start (b ∷ bs) = ground (arith, length-skip_to_rune_start bs)

-- A tail never exceeds its bound.
pub message_tail-bounded : (s : Text) (n : ℕ) → length (message_tail s n) ≤ n
unfolding message_tail
message_tail-bounded s n =
    let valid = to_valid_utf8 s in
    ground (
      arith,
      length-skip_to_rune_start (drop (length valid - n) valid),
      length-drop (length valid - n) valid,
    )

head_end-bounded : (s : Text) (n : ℕ) → head_end s n ≤ n
unfolding head_end
head_end-bounded s zero = ground arith
head_end-bounded s (suc n) = ground (arith, head_end-bounded s n)

-- The head, the marker and the tail fit together.
head_and_tail-fits :
    (s : Text) (n : ℕ)
    → 3 < n
    → length (
        take (head_end s (n - 3 - (n - 3) / 2)) s
        ++ (message_omission_marker ++ message_tail s ((n - 3) / 2)))
      ≤ n
head_and_tail-fits s n big =
    let tail = message_tail s ((n - 3) / 2) in
    let head = take (head_end s (n - 3 - (n - 3) / 2)) s in
    omega (
      arith,
      big,
      length-append head (message_omission_marker ++ tail),
      length-take (head_end s (n - 3 - (n - 3) / 2)) s,
      head_end-bounded s (n - 3 - (n - 3) / 2),
      message_tail-bounded s ((n - 3) / 2),
    )

-- A message cut in the middle never exceeds its bound.
pub message_head_and_tail-bounded : (s : Text) (n : ℕ) → length (message_head_and_tail s n) ≤ n
unfolding message_head_and_tail
message_head_and_tail-bounded s n = ground (
  arith,
  message_tail-bounded (to_valid_utf8 s) n,
  (λ (big : 3 < n). head_and_tail-fits (to_valid_utf8 s) n big),
)

reconciliation_history-bounded :
    (message combined : Text)
    → length (reconciliation_history message combined) ≤ max_transaction_message_bytes
unfolding reconciliation_history transaction_message_tail
reconciliation_history-bounded message combined =
    let primary_end = index_or_length message reconciliation_separator in
    let primary =
      message_head_and_tail (take primary_end message) max_reconciliation_primary_bytes in
    let bytes = 512 - length primary - 18 in
    let rest = drop (primary_end + 18) combined in
    ground (
      arith,
      length-append primary (reconciliation_separator ++ message_tail rest bytes),
      message_head_and_tail-bounded (take primary_end message) max_reconciliation_primary_bytes,
      message_tail-bounded rest bytes,
      message_tail-bounded combined 512,
    )

append_detail-bounded : (message detail : Text) → length (append_detail message detail) ≤ 512
unfolding append_detail transaction_message_tail
append_detail-bounded [] detail = message_tail-bounded detail 512
append_detail-bounded (c ∷ cs) detail = ground (
  arith,
  reconciliation_history-bounded (c ∷ cs) ((c ∷ cs) ++ (reconciliation_separator ++ detail)),
)

-- The message of a row with the error of a reconciliation appended never exceeds 512 bytes, however
-- long the message and the error are.
pub append_reconciliation_error-bounded :
    (message : Text) (e : Option Text) → length (append_reconciliation_error message e) ≤ 512
unfolding append_reconciliation_error transaction_message_tail
append_reconciliation_error-bounded message none = message_tail-bounded (to_valid_utf8 message) 512
append_reconciliation_error-bounded message (some err) =
    append_detail-bounded (to_valid_utf8 message) (to_valid_utf8 err)

-- The reason that a broadcast failure leaves in a row never exceeds 256 bytes, however
-- long the rendered hash and the error are.
pub broadcast_attempt_reason-bounded :
    (hex detail : Text) → length (broadcast_attempt_reason hex detail) ≤ 256
unfolding broadcast_attempt_reason
broadcast_attempt_reason-bounded hex detail =
    let prefix = sprintf "broadcast attempt %s: " (hex ∷ []) in
    ground (
      arith,
      message_head_and_tail-bounded prefix 256,
      message_head_and_tail-bounded detail (256 - length prefix),
      length-append prefix (message_head_and_tail detail (256 - length prefix)),
    )
