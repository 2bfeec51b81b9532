-- ===== src/Txmngr/Types.antt =====
-- The rows of the transaction queue: evm/txmngr/txmngr_provider/tx.go.
-- Times and durations are nanoseconds, the zero time is 0. An address or a hash is the number
-- that its bytes spell, the zero address 0. A pointer that may be nil is an `Option`.
use superform_go_utils.Prelude.{
  ℕ, Bool, true, false, List, [], ◌∷◌, Option, Text, Eq, ◌==◌, ◌||◌, ◌≡◌, ◌↔◌, arith,
}

abbrev pub Address : Type 0
Address = ℕ

abbrev pub Hash : Type 0
Hash = ℕ

abbrev pub Time : Type 0
Time = ℕ

abbrev pub zero_address : Address
zero_address = 0

-- What the accessors of a signed go-ethereum transaction return. `signer` is what recovering the
-- sender from the signature gives, `none` where that fails with the text `signer_error`.
pub record SignedTx : Type 0 where
  pub hash : Hash
  pub nonce : ℕ
  pub chain_id : Option ℕ
  pub tx_type : ℕ
  pub gas_price : Option ℕ
  pub gas_tip_cap : Option ℕ
  pub gas_fee_cap : Option ℕ
  pub signer : Option Address
  pub signer_error : Text

pub record Receipt : Type 0 where
  pub tx_hash : Hash
  pub status : ℕ

abbrev pub receipt_status_failed : ℕ
receipt_status_failed = 0

abbrev pub receipt_status_successful : ℕ
receipt_status_successful = 1

pub data TxStatus : Type 0 where
  succeed errored processing confirming pending failed : TxStatus

pub status_beq : TxStatus → TxStatus → Bool
status_beq succeed succeed = true
status_beq errored errored = true
status_beq processing processing = true
status_beq confirming confirming = true
status_beq pending pending = true
status_beq failed failed = true
status_beq _ _ = false

pub status_beq_iff : (s t : TxStatus) → (status_beq s t ≡ true) ↔ (s ≡ t)
unfolding status_beq
status_beq_iff s t = ground arith

instance abbrev pub status_eq : Eq TxStatus
status_eq = record { same = status_beq; same_iff = status_beq_iff }

unfoldable pub active_statuses : List TxStatus
active_statuses = pending ∷ processing ∷ confirming ∷ []

unfoldable pub terminal_statuses : List TxStatus
terminal_statuses = succeed ∷ failed ∷ errored ∷ []

-- The encoding of one EIP-7702 authorization.
abbrev pub Authorization : Type 0
Authorization = Text

pub record SendTxOptions : Type 0 where
  pub operation_key : Option Text

pub record TransactionAttempt : Type 0 where
  pub transaction_id : Text
  pub hash : Hash
  pub nonce : ℕ
  pub tx : Option SignedTx
  pub created_at : Time

-- `tx_data` is the field `Data`. `rejected_attempt_hash` holds the hash whose hex text the row has.
pub record Transaction : Type 0 where
  pub id : Text
  pub intent_id : Option Text
  pub operation_key : Option Text
  pub payload_hash : Option Text
  pub chain_id : ℕ
  pub sender : Address
  pub address : Address
  pub tx_data : Text
  pub value : Option ℕ
  pub gas_limit : ℕ
  pub raw_authorizations : List Authorization
  pub assigned_nonce : Option ℕ
  pub tx : Option SignedTx
  pub receipt : Option Receipt
  pub status : TxStatus
  pub msg : Text
  pub next_action_at : Time
  pub broadcast_pending : Bool
  pub rejected_attempt_hash : Option Hash
  pub nonce_consumed_at : Option Time
  pub notified_at : Option Time
  pub notification_attempts : ℕ
  pub next_notification_at : Time
  pub notification_error : Text
  pub updated_at : Time
  pub created_at : Time

unfoldable pub is_completed : Transaction → Bool
unfolding status_beq
is_completed tx = tx.status == errored || tx.status == failed || tx.status == succeed
