-- ===== src/Txmngr/Manager.antt =====
-- `txManager` of evm/txmngr/txmngr.go: its configuration, and what lies outside the repository. Each
-- function from a tick is the answer of the environment to the call with that number: the clock,
-- the nodes (go-ethereum clients), the signer, and the hooks that the application installs.
use superform_go_utils.Prelude.{
  ℕ, zero, suc, ◌+◌, ◌*◌, List, Option, none, some, Text, Bool, Assoc, lookup, nat_eq, contains,
}
use superform_go_utils.Prelude.Int.{ℤ, pos, negsuc}
use superform_go_utils.Txmngr.Types.{
  Address, Hash, Time, SignedTx, Receipt, Transaction, TransactionAttempt, Authorization,
}
use superform_go_utils.Txmngr.Errors.{Failure, RpcError}
use superform_go_utils.Txmngr.Action.{Result, Action, ask}

-- The answer of an RPC call that returns a value or an error.
pub data Reply (A : Type 0) : Type 0 where
  reply : A → Reply A
  refused : RpcError → Reply A

-- The unsigned transactions that `signAttempt` hands to the signer.
pub data Envelope : Type 0 where
  set_code_tx :
      (to nonce gas_tip_cap gas_fee_cap gas : ℕ)
      → (tx_data : Text) → (value : ℕ) → List Authorization
      → Envelope
  legacy_tx : (to nonce gas_price gas : ℕ) → (tx_data : Text) → (value : ℕ) → Envelope

-- How a status callback ended.
pub data Outcome : Type 0 where
  returned : Option Failure → Outcome
  panicked : Text → Outcome

pub record Payload : Type 0 where
  pub chain_id : ℕ
  pub address : Address
  pub tx_data : Text
  pub gas_limit : ℕ
  pub value : ℕ
  pub authorizations : List Authorization

pub record Manager : Type 0 where
  pub client_ids : List ℕ
  pub sender : Address
  pub bump_interval_map : Assoc ℕ ℤ
  pub block_time_map : Assoc ℕ ℤ
  pub hash_hex : Hash → Text
  pub address_hex : Address → Text
  pub redact_urls : Text → Text
  pub redact_bearers : Text → Text
  pub redact_jwts : Text → Text
  pub now_at : ℕ → Time
  pub context_done : ℕ → Bool
  pub send_transaction : ℕ → ℕ → SignedTx → Option RpcError
  pub transaction_receipt : ℕ → ℕ → Hash → Option Receipt × Option RpcError
  pub transaction_by_hash : ℕ → ℕ → Hash → Option SignedTx × Option RpcError
  pub pending_nonce_at : ℕ → ℕ → Address → Reply ℕ
  pub suggest_gas_price : ℕ → ℕ → Reply ℕ
  pub suggest_gas_tip_cap : ℕ → ℕ → Reply ℕ
  pub latest_base_fee : ℕ → ℕ → Reply (Option ℕ)
  pub get_transact_opts : Option (ℕ → ℕ → Result (Option Address))
  pub sign : ℕ → ℕ → Envelope → Result SignedTx
  pub before_attempt : Option (ℕ → Transaction → Bool → Result Time)
  pub on_status_change : Option (ℕ → Transaction → Outcome)
  pub new_uuid : ℕ → Text
  pub payload_digest : Payload → Result Text

abbrev pub second : ℕ
second = 1_000_000_000

abbrev pub priority_coefficient : ℕ
priority_coefficient = 15

abbrev pub max_fee_replacements : ℕ
max_fee_replacements = 5

abbrev pub notification_work_batch : ℕ
notification_work_batch = 50

abbrev pub max_chain_workers : ℕ
max_chain_workers = 4

abbrev pub max_transactions_per_lane : ℕ
max_transactions_per_lane = 25

abbrev pub max_hash_collision_resigns : ℕ
max_hash_collision_resigns = 8

abbrev pub exhausted_poll_interval : ℕ
exhausted_poll_interval = 30 * second

abbrev pub consumed_nonce_grace : ℕ
consumed_nonce_grace = 120 * second

abbrev pub recovered_attempt_rejection_grace : ℕ
recovered_attempt_rejection_grace = 120 * second

-- A configured duration that is set and positive.
abbrev pub positive_or : Option ℤ → ℕ → ℕ
positive_or none fallback = fallback
positive_or (some (pos zero)) fallback = fallback
positive_or (some (pos (suc n))) fallback = suc n
positive_or (some (negsuc n)) fallback = fallback

module _ (m : Manager) where
  unfoldable pub block_time : ℕ → ℕ
  block_time chain_id = positive_or (lookup chain_id m.block_time_map) second

  unfoldable pub bump_interval : ℕ → ℕ
  bump_interval chain_id =
      positive_or (lookup chain_id m.bump_interval_map) (3 * block_time chain_id)

  unfoldable pub next_bump_at : ℕ → TransactionAttempt → Time
  next_bump_at chain_id latest = latest.created_at + bump_interval chain_id

  -- `time.Now()`
  unfoldable pub now : Action Time
  now = ask m.now_at

  unfoldable pub has_client : ℕ → Bool
  has_client chain_id = contains m.client_ids chain_id
