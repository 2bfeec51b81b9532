-- ===== src/Txmngr/Errors.antt =====
-- Go errors of evm/txmngr: the rendered text, and the sentinels that `errors.Is` finds in the chain.
-- An error of the RPC client is what the code can observe of it.
use superform_go_utils.Prelude.{
  ℕ, Bool, true, false, List, [], ◌∷◌, Option, Text, String, sprintf, codes, ◌||◌,
}
use superform_go_utils.Prelude.Int.{ℤ}

pub data Sentinel : Type 0 where
  idempotency_conflict attempt_hash_conflict stale_transaction : Sentinel
  transaction_unprocessable lane_awaiting_node_nonce lane_state_changed : Sentinel
  unsigned_transaction_expired context_canceled context_deadline_exceeded : Sentinel
  no_rows : Sentinel

unfoldable pub sentinel_beq : Sentinel → Sentinel → Bool
sentinel_beq idempotency_conflict idempotency_conflict = true
sentinel_beq attempt_hash_conflict attempt_hash_conflict = true
sentinel_beq stale_transaction stale_transaction = true
sentinel_beq transaction_unprocessable transaction_unprocessable = true
sentinel_beq lane_awaiting_node_nonce lane_awaiting_node_nonce = true
sentinel_beq lane_state_changed lane_state_changed = true
sentinel_beq unsigned_transaction_expired unsigned_transaction_expired = true
sentinel_beq context_canceled context_canceled = true
sentinel_beq context_deadline_exceeded context_deadline_exceeded = true
sentinel_beq no_rows no_rows = true
sentinel_beq _ _ = false

-- The text that `errors.New` gives each sentinel.
unfoldable pub sentinel_text : Sentinel → Text
sentinel_text idempotency_conflict =
    codes "transaction operation key already exists with a different payload"
sentinel_text attempt_hash_conflict =
    codes "signed transaction hash already belongs to another transaction"
sentinel_text stale_transaction = codes "transaction state changed before update"
sentinel_text transaction_unprocessable = codes "transaction cannot be advanced"
sentinel_text lane_awaiting_node_nonce = codes "transaction lane is awaiting node nonce"
sentinel_text lane_state_changed = codes "transaction lane state changed"
sentinel_text unsigned_transaction_expired = codes "unsigned transaction expired"
sentinel_text context_canceled = codes "context canceled"
sentinel_text context_deadline_exceeded = codes "context deadline exceeded"
sentinel_text no_rows = codes "sql: no rows in result set"

pub record Failure : Type 0 where
  pub text : Text
  pub wraps : List Sentinel

unfoldable pub sentinel : Sentinel → Failure
sentinel s = record { text = sentinel_text s; wraps = s ∷ [] }

-- `errors.New(s)`
unfoldable pub plain : String → Failure
plain s = record { text = codes s; wraps = [] }

-- `fmt.Errorf(s, args...)`, where `wraps` collects the chains of the `%w` arguments.
unfoldable pub errorf : String → List Text → List Sentinel → Failure
errorf s args wraps = record { text = sprintf s args; wraps = wraps }

-- An error that wraps one other: `fmt.Errorf(s, err)` with a `%w` in `s`.
unfoldable pub prefixed : String → Failure → Failure
unfolding errorf
prefixed s e = errorf s (e.text ∷ []) e.wraps

any_sentinel : Sentinel → List Sentinel → Bool
unfolding sentinel_beq
any_sentinel s [] = false
any_sentinel s (t ∷ ts) = sentinel_beq s t || any_sentinel s ts

-- `errors.Is(err, s)`
unfoldable pub is : Sentinel → Failure → Bool
unfolding any_sentinel
is s e = any_sentinel s e.wraps

-- What the code observes of an error from the RPC client: `message` is its `Error()`; `code` is set
-- if `errors.As` finds an `rpc.Error`, whose own text is `response`; the other fields are the
-- answers of `errors.Is` and `errors.As` for the types that the code asks for, `type_name` its `%T`.
pub record RpcError : Type 0 where
  pub message : Text
  pub code : Option ℤ
  pub response : Text
  pub not_found : Bool
  pub canceled : Bool
  pub deadline_exceeded : Bool
  pub http_status : Option ℕ
  pub url_op : Option Text
  pub net_timeout : Bool
  pub type_name : Text
