-- ===== src/Txmngr/Submit.antt =====
-- Queueing: `SendTxAsync`, `WithOperationKey` and `transactionPayloadHash` of
-- evm/txmngr/txmngr.go.
pub mod Once
use superform_go_utils.Prelude.{
  ℕ, List, [], ◌∷◌, Option, none, some, Text, false, not, if◌then◌else◌, decimal,
}
use mathlib.Core.List.{foldl}
use superform_go_utils.Txmngr.Types.{
  Address, Time, Authorization, SendTxOptions, Transaction, pending,
}
use superform_go_utils.Txmngr.Errors.{errorf, prefixed}
use superform_go_utils.Txmngr.Mem.{Store, Stored, conflict, stored, insert_or_get}
use superform_go_utils.Txmngr.Action.{
  Action, State, Result, ok, err, ◌>>=◌, fail, ask, lift, wrapping,
}
use superform_go_utils.Txmngr.Manager.{Manager, Payload, now, has_client}

-- An option that `SendTxAsync` is given; `none` stands for a nil option.
abbrev pub SendTxOption : Type 0
SendTxOption = Option (SendTxOptions → SendTxOptions)

unfoldable pub with_operation_key : Text → SendTxOption
with_operation_key [] = some (λ options. options)
with_operation_key (c ∷ cs) = some (λ options. record options { operation_key = some (c ∷ cs) })

abbrev apply_option : SendTxOptions → SendTxOption → SendTxOptions
apply_option options none = options
apply_option options (some option) = option options

unfoldable pub apply_options : List SendTxOption → SendTxOptions
apply_options opts = foldl apply_option (record { operation_key = none }) opts

abbrev value_or_zero : Option ℕ → ℕ
value_or_zero none = 0
value_or_zero (some v) = v

-- The arguments of one call of `SendTxAsync`.
pub record Request : Type 0 where
  pub chain_id : ℕ
  pub address : Address
  pub tx_data : Text
  pub gas_limit : ℕ
  pub value : Option ℕ
  pub authorizations : List Authorization
  pub intent_id : Option Text
  pub options : List SendTxOption

-- The fields that the payload hash covers.
unfoldable pub payload_of : Request → Payload
payload_of r = record {
  chain_id = r.chain_id;
  address = r.address;
  tx_data = r.tx_data;
  gas_limit = r.gas_limit;
  value = value_or_zero r.value;
  authorizations = r.authorizations;
}

unfoldable pub queued_row : Address → Request → Text → Text → Time → Transaction
queued_row sender r id digest time = record {
  id = id;
  intent_id = r.intent_id;
  operation_key = (apply_options r.options).operation_key;
  payload_hash = some digest;
  chain_id = r.chain_id;
  sender = sender;
  address = r.address;
  tx_data = r.tx_data;
  value = some (value_or_zero r.value);
  gas_limit = r.gas_limit;
  raw_authorizations = r.authorizations;
  assigned_nonce = none;
  tx = none;
  receipt = none;
  status = pending;
  msg = [];
  next_action_at = time;
  broadcast_pending = false;
  rejected_attempt_hash = none;
  nonce_consumed_at = none;
  notified_at = none;
  notification_attempts = 0;
  next_notification_at = time;
  notification_error = [];
  updated_at = time;
  created_at = time;
}

abbrev store_result : State → Stored × Store → Result Text × State
store_result s (stored tx, store) = (ok tx.id, record s { store = store })
store_result s (conflict e, store) =
    (err (prefixed "failed to store tx in the transactionsQ: %w" e), record s { store = store })

unfoldable pub store_row : Transaction → Action Text
store_row tx s = store_result s (insert_or_get s.store tx)

module _ (m : Manager) where
  unfoldable pub send_tx_async : Request → Action Text
  send_tx_async r =
      if not (has_client m r.chain_id)
      then fail (errorf "unsupported chain ID: %d" (decimal r.chain_id ∷ []) [])
      else do
        digest ←
            wrapping (prefixed "hashing transaction payload: %w")
              (lift (m.payload_digest (payload_of r)))
        id ← ask m.new_uuid
        time ← now m
        store_row (queued_row m.sender r id digest time)
