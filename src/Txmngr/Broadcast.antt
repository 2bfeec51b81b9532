-- ===== src/Txmngr/Broadcast.antt =====
-- The classification of broadcast errors in evm/txmngr/txmngr.go.
pub mod Taxonomy
use superform_go_utils.Prelude.{
  ℕ, Bool, true, false, ◌&&◌, ◌||◌, not, List, [], ◌∷◌, Option, none, some, Text, String, codes,
  leb, if◌then◌else◌, ◌==◌, nat_eq, ◌+◌, ◌-◌,
}
use superform_go_utils.Prelude.Int.{ℤ, pos, negsuc, int_beq}
use superform_go_utils.Txmngr.Errors.{RpcError}

pub data BroadcastErrorDisposition : Type 0 where
  ambiguous already_known nonce_consumed fee_rejected : BroadcastErrorDisposition
  transaction_rejected_retryable transaction_rejected_permanent : BroadcastErrorDisposition

-- `strings.ToLower` on ASCII.
to_lower : Text → Text
to_lower [] = []
to_lower (c ∷ cs) = (if leb b'A' c && leb c b'Z' then c + 32 else c) ∷ to_lower cs

has_prefix : Text → Text → Bool
has_prefix s [] = true
has_prefix [] (p ∷ ps) = false
has_prefix (c ∷ s) (p ∷ ps) = c == p && has_prefix s ps

-- `strings.Contains`
text_contains : Text → Text → Bool
unfolding has_prefix
text_contains [] needle = has_prefix [] needle
text_contains (c ∷ s) needle = has_prefix (c ∷ s) needle || text_contains s needle

any_needle : Text → List String → Bool
unfolding text_contains
any_needle message [] = false
any_needle message (n ∷ ns) = text_contains message (codes n) || any_needle message ns

-- `containsAny`, of an error that is not nil.
unfoldable pub contains_any : RpcError → List String → Bool
unfolding to_lower any_needle
contains_any err needles = any_needle (to_lower err.message) needles

-- `rpcErrorCode`: 0 where the error carries no JSON-RPC response.
unfoldable pub rpc_error_code : RpcError → ℤ
rpc_error_code err = elim err.code [ none ↦ pos 0 | some c ↦ c ]

one_of : ℤ → List ℤ → Bool
one_of c [] = false
one_of c (d ∷ ds) = int_beq c d || one_of c ds

abbrev pub fee_policy_rejection_messages : List String
fee_policy_rejection_messages =
    "replacement transaction underpriced" ∷ "replacement underpriced" ∷ "transaction underpriced"
    ∷ "fee too low to replace" ∷ "max fee per gas less than block base fee"
    ∷ "max fee per gas below block base fee" ∷ "fee cap less than block base fee"
    ∷ "fee cap below base fee" ∷ []

abbrev pub permanent_rejection_messages : List String
permanent_rejection_messages =
    "gas limit too high" ∷ "exceeds block gas limit" ∷ "tx gas limit exceeds"
    ∷ "intrinsic gas too low" ∷ "intrinsic gas exceeds gas limit" ∷ "gas uint64 overflow"
    ∷ "invalid sender" ∷ "sender not an eoa" ∷ "invalid transaction signature" ∷ "invalid signature"
    ∷ "invalid chain id" ∷ "only replay-protected" ∷ "unsupported transaction type"
    ∷ "transaction type not supported" ∷ "max initcode size exceeded" ∷ "initcode size exceeded"
    ∷ "max priority fee per gas higher than max fee per gas"
    ∷ "max priority fee per gas exceeds max fee per gas" ∷ "tip above fee cap" ∷ []

abbrev neg : ℕ → ℤ
neg n = negsuc (n - 1)

unfoldable pub is_nonce_too_low_error : RpcError → Bool
unfolding rpc_error_code one_of
is_nonce_too_low_error err =
    one_of (rpc_error_code err) (pos 1 ∷ neg 38010 ∷ []) || contains_any err ("nonce too low" ∷ [])

unfoldable pub is_already_known_error : RpcError → Bool
unfolding rpc_error_code
is_already_known_error err =
    int_beq (rpc_error_code err) (pos 1000)
    || (not (contains_any err ("unknown transaction" ∷ []))
        && contains_any err ("already known" ∷ "known transaction" ∷ []))

unfoldable pub is_fee_policy_rejection_error : RpcError → Bool
unfolding rpc_error_code one_of
is_fee_policy_rejection_error err =
    one_of (rpc_error_code err) (pos 802 ∷ pos 806 ∷ [])
    || contains_any err fee_policy_rejection_messages

abbrev pub retryable_codes : List ℤ
retryable_codes =
    pos 2
    ∷ pos 809
    ∷ neg 38011
    ∷ neg 38014
    ∷ neg 38026
    ∷ neg 32700
    ∷ neg 32600
    ∷ neg 32601
    ∷ neg 32004
    ∷ neg 32006
    ∷ []

unfoldable pub is_retryable_transaction_rejection_error : RpcError → Bool
unfolding rpc_error_code one_of
is_retryable_transaction_rejection_error err =
    one_of (rpc_error_code err) retryable_codes
    || contains_any err (
        "nonce too high" ∷ "insufficient funds" ∷ "transaction pool is full" ∷ "txpool is full"
        ∷ [])

abbrev pub permanent_codes : List ℤ
permanent_codes =
    pos 3
    ∷ pos 4
    ∷ pos 800
    ∷ pos 801
    ∷ pos 803
    ∷ pos 804
    ∷ pos 805
    ∷ pos 807
    ∷ pos 808
    ∷ pos 1001
    ∷ neg 38013
    ∷ neg 38015
    ∷ neg 38024
    ∷ neg 38025
    ∷ neg 32602
    ∷ []

-- The tail of `isPermanentTransactionRejectionError`, once the other dispositions are ruled out.
unfoldable pub permanent_response : RpcError → Bool
unfolding one_of
permanent_response err = elim err.code [
  | none ↦ false
  | some c ↦ one_of c permanent_codes || contains_any err permanent_rejection_messages
]

unfoldable pub is_permanent_transaction_rejection_error : RpcError → Bool
unfolding permanent_response
is_permanent_transaction_rejection_error err =
    if is_already_known_error err
      || is_nonce_too_low_error err
      || is_fee_policy_rejection_error err
      || is_retryable_transaction_rejection_error err
    then false
    else permanent_response err

unfoldable pub classify_broadcast_error : RpcError → BroadcastErrorDisposition
classify_broadcast_error err =
    if is_already_known_error err
    then already_known
    else if is_nonce_too_low_error err
    then nonce_consumed
    else if is_fee_policy_rejection_error err
    then fee_rejected
    else if is_retryable_transaction_rejection_error err
    then transaction_rejected_retryable
    else if is_permanent_transaction_rejection_error err
    then transaction_rejected_permanent
    else ambiguous
