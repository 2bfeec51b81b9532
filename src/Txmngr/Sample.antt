-- ===== src/Txmngr/Sample.antt =====
-- A small environment for tests: chain 10 with one node that accepts every transaction, reports
-- pending nonce 5 and a gas price of 100, and has no receipts; the clock shows 1000 seconds more
-- with each call. The sender is 7.
use superform_go_utils.Prelude.{
  ◌+◌, ◌*◌, [], ◌∷◌, ◌++◌, none, some, Text, false, codes, decimal, Assoc,
}
use superform_go_utils.Txmngr.Types.{SignedTx, Transaction, pending, succeed}
use superform_go_utils.Txmngr.Mem.{Store}
use superform_go_utils.Txmngr.Action.{State, ok}
use superform_go_utils.Txmngr.Manager.{
  Manager, Envelope, set_code_tx, legacy_tx, reply, returned, second,
}

-- A signer whose hash is 1000 times the nonce plus the fee.
abbrev pub sign_with : Envelope → SignedTx
sign_with (legacy_tx to nonce gas_price gas tx_data value) = record {
  hash = 1000 * nonce + gas_price;
  nonce = nonce;
  chain_id = some 10;
  tx_type = 0;
  gas_price = some gas_price;
  gas_tip_cap = some gas_price;
  gas_fee_cap = some gas_price;
  signer = some 7;
  signer_error = [];
}
sign_with (set_code_tx to nonce tip cap gas tx_data value auth) = record {
  hash = 1000 * nonce + cap;
  nonce = nonce;
  chain_id = some 10;
  tx_type = 4;
  gas_price = some cap;
  gas_tip_cap = some tip;
  gas_fee_cap = some cap;
  signer = some 7;
  signer_error = [];
}

abbrev pub sample_manager : Manager
sample_manager = record {
  client_ids = 10 ∷ [];
  sender = 7;
  bump_interval_map = [];
  block_time_map = [];
  hash_hex = λ h. decimal h;
  address_hex = λ a. decimal a;
  redact_urls = λ t. t;
  redact_bearers = λ t. t;
  redact_jwts = λ t. t;
  now_at = λ t. 1000 * second * (t + 1);
  context_done = λ t. false;
  send_transaction = λ t chain_id tx. none;
  transaction_receipt = λ t chain_id hash. (none, none);
  transaction_by_hash = λ t chain_id hash. (none, none);
  pending_nonce_at = λ t chain_id sender. reply 5;
  suggest_gas_price = λ t chain_id. reply 100;
  suggest_gas_tip_cap = λ t chain_id. reply 2;
  latest_base_fee = λ t chain_id. reply (some 50);
  get_transact_opts = some (λ t chain_id. ok (some 7));
  sign = λ t chain_id e. ok (sign_with e);
  before_attempt = none;
  on_status_change = some (λ t tx. returned none);
  new_uuid = λ t. codes "id-" ++ decimal t;
  payload_digest = λ p. ok (codes "digest");
}

abbrev pub blank_row : Transaction
blank_row = record {
  id = codes "a";
  intent_id = none;
  operation_key = none;
  payload_hash = none;
  chain_id = 10;
  sender = 7;
  address = 9;
  tx_data = [];
  value = some 0;
  gas_limit = 21000;
  raw_authorizations = [];
  assigned_nonce = none;
  tx = none;
  receipt = none;
  status = pending;
  msg = [];
  next_action_at = 0;
  broadcast_pending = false;
  rejected_attempt_hash = none;
  nonce_consumed_at = none;
  notified_at = none;
  notification_attempts = 0;
  next_notification_at = 0;
  notification_error = [];
  updated_at = 1;
  created_at = 1;
}

-- A finished row at nonce 4.
abbrev pub done_row : Transaction
done_row = record blank_row {
  id = codes "b";
  intent_id = some (codes "intent");
  assigned_nonce = some 4;
  status = succeed;
}

abbrev pub sample_rows : Assoc Text Transaction
sample_rows = (codes "a", blank_row) ∷ (codes "b", done_row) ∷ []

abbrev pub sample_store : Store
sample_store = record { txs = sample_rows; attempts = []; hashes = []; lane_locks = [] }

abbrev pub sample_state : State
sample_state = record {
  store = sample_store;
  lane = record { next = 0; known = false };
  tick = 0;
  trace = [];
}

-- The same, where the finished row owns a hash.
abbrev pub owned_state : State
owned_state = record sample_state {
  store = record sample_store { hashes = (4100, codes "b") ∷ [] };
}
