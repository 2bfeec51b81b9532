-- ===== src/Txmngr/Step/Assign.antt =====
-- The part of `processTransactionStep` (evm/txmngr/txmngr.go) that admits a row, gives it a nonce,
-- signs and sends: with `pollConsumedNonce` and `createAndBroadcastAttempt`. Cut at its early returns.
use superform_go_utils.Prelude.{
  ℕ, ◌+◌, ◌-◌, List, [], ◌∷◌, ◌++◌, Option, none, some, Text, Bool, true, false, not, ◌&&◌, ◌||◌,
  codes, ltb, sprintf, decimal, if◌then◌else◌, nat_eq, String, length, is_some,
}
use superform_go_utils.Txmngr.Types.{Time, Transaction, TransactionAttempt, confirming, processing}
use superform_go_utils.Txmngr.Errors.{
  Failure, transaction_unprocessable, lane_awaiting_node_nonce, lane_state_changed,
  unsigned_transaction_expired, sentinel, sentinel_text, plain, errorf, is, prefixed,
}
use superform_go_utils.Txmngr.Lane.{observe, reserve, is_tip}
use superform_go_utils.Txmngr.Mem.{update_if_active}
use superform_go_utils.Txmngr.Action.{
  Action, State, Result, ok, err, ◌>>=◌, ◌>>◌, fail, ask, gets, write, wrapping, emit, update_lane,
  barrier_observed,
}
use superform_go_utils.Txmngr.Manager.{
  Manager, Reply, reply, refused, now, block_time, max_fee_replacements, consumed_nonce_grace,
}
use superform_go_utils.Txmngr.Summary.{redacted_rpc_error}
use superform_go_utils.Txmngr.Schedule.{schedule_next_check, schedule_next_check_not_before}
use superform_go_utils.Txmngr.Settle.{abandon_transaction}
use superform_go_utils.Txmngr.Sign.{persist_unique_attempt}
use superform_go_utils.Txmngr.Send.{broadcast_and_schedule}

-- `fmt.Errorf(s, args..., errTransactionUnprocessable)`
unfoldable pub unprocessable : String → List Text → Failure
unprocessable s args =
    errorf s (args ++ sentinel_text transaction_unprocessable ∷ []) (transaction_unprocessable ∷ [])

abbrev rpc_nonce_behind : Text
rpc_nonce_behind = codes "rpc_nonce_behind"

abbrev pub or_zero_nonce : Option ℕ → ℕ
or_zero_nonce none = 0
or_zero_nonce (some n) = n

-- `lane.isTip(*nonce)`, false for a nil nonce.
abbrev pub tip_of : State → Option ℕ → Bool
tip_of s none = false
tip_of s (some nonce) = is_tip s.lane nonce

module _ (m : Manager) where
  unfoldable pub poll_consumed_nonce :
      Transaction → Time → List TransactionAttempt → Action (Unit {0})
  poll_consumed_nonce tx consumed_at attempts = do
    time ← now m
    if ltb consumed_nonce_grace (time - consumed_at)
        then abandon_transaction m tx (
            sprintf "nonce %d was consumed by another transaction and no attempt was mined"
              (decimal (or_zero_nonce tx.assigned_nonce) ∷ []))
        else schedule_next_check m tx attempts

  -- The row that `createAndBroadcastAttempt` persists before it sends.
  unfoldable pub candidate_row : Transaction → TransactionAttempt → Transaction
  candidate_row tx attempt = record tx {
    tx = attempt.tx;
    status = confirming;
    broadcast_pending = true;
    rejected_attempt_hash = none;
    next_action_at = attempt.created_at + block_time m tx.chain_id;
    msg = [];
    updated_at = attempt.created_at;
  }

  abbrev pub is_empty : List TransactionAttempt → Bool
  is_empty [] = true
  is_empty (a ∷ as') = false

  unfoldable pub create_and_broadcast_attempt :
      Transaction → List TransactionAttempt → Bool → Action (Unit {0})
  create_and_broadcast_attempt tx attempts can_release =
      if not (is_some tx.assigned_nonce)
      then fail (plain "cannot sign transaction without an assigned nonce")
      else do
        attempt ← persist_unique_attempt m tx attempts
        wrapping (prefixed "persisting canonical transaction attempt: %w")
            (write (λ q. update_if_active q (candidate_row tx attempt)))
        broadcast_and_schedule m (candidate_row tx attempt) (attempts ++ attempt ∷ [])
            (record { first_attempt_this_pass = is_empty attempts; nonce_releasable = can_release })

  -- The last part: sign the first candidate or a replacement, or send the newest one again.
  unfoldable pub sign_or_resend : Transaction → List TransactionAttempt → Bool → Action (Unit {0})
  sign_or_resend tx attempts tip =
      if is_empty attempts
      then create_and_broadcast_attempt tx attempts tip
      else if ltb (length attempts) max_fee_replacements
      then create_and_broadcast_attempt tx attempts false
      else broadcast_and_schedule m tx attempts
          (record { first_attempt_this_pass = false; nonce_releasable = tip })

  abbrev pub assigned_row : Transaction → ℕ → Time → Transaction
  assigned_row tx nonce time = record tx {
    assigned_nonce = some nonce;
    status = processing;
    updated_at = time;
  }

  -- With the answer of `lane.reserve`.
  unfoldable pub assign_nonce :
      Transaction → List TransactionAttempt → ℕ → Option ℕ → Action (Unit {0})
  assign_nonce tx attempts rpc_nonce none = do
    emit (barrier_observed tx.chain_id rpc_nonce_behind)
    next ← gets (λ s. s.lane.next)
    fail (
        errorf "%w: node pending nonce %d is behind durable next nonce %d"
          (sentinel_text lane_awaiting_node_nonce ∷ decimal rpc_nonce ∷ decimal next ∷ [])
          (lane_awaiting_node_nonce ∷ []))
  assign_nonce tx attempts rpc_nonce (some nonce) = do
    time ← now m
    wrapping (prefixed "persisting assigned nonce: %w")
        (write (λ q. update_if_active q (assigned_row tx nonce time)))
    update_lane (λ l. observe l nonce)
    tip ← gets (λ s. is_tip s.lane nonce)
    sign_or_resend (assigned_row tx nonce time) attempts tip

  abbrev pub reserve_nonce : Transaction → List TransactionAttempt → Reply ℕ → Action (Unit {0})
  reserve_nonce tx attempts (refused e) =
      fail (redacted_rpc_error m (codes "getting pending nonce") e)
  reserve_nonce tx attempts (reply rpc_nonce) = do
    nonce ← gets (λ s. reserve s.lane rpc_nonce)
    assign_nonce tx attempts rpc_nonce nonce

  unfoldable pub ensure_nonce : Transaction → List TransactionAttempt → Action (Unit {0})
  ensure_nonce tx attempts = elim tx.assigned_nonce [
    | some nonce ↦ do tip ← gets (λ s. is_tip s.lane nonce); sign_or_resend tx attempts tip
    | none ↦ do
      answer ← ask (λ t. m.pending_nonce_at t tx.chain_id m.sender)
      reserve_nonce tx attempts answer
  ]

  -- Past admission: resume an ambiguous broadcast, or go on to the nonce.
  unfoldable pub resume_or_assign : Transaction → List TransactionAttempt → Bool → Action (Unit {0})
  resume_or_assign tx attempts resume =
      if resume
      then (do
        tip ← gets (λ s. tip_of s tx.assigned_nonce)
        broadcast_and_schedule m tx attempts
            (record { first_attempt_this_pass = false; nonce_releasable = tip }))
      else ensure_nonce tx attempts

  abbrev pub deferred_row : Transaction → Transaction
  deferred_row tx = record tx { msg = codes "attempt deferred by application admission" }

  -- Whether an expired row may be given up: nothing is signed, and its nonce, if any, is the tip.
  abbrev pub may_expire : Failure → List TransactionAttempt → Option ℕ → State → Bool
  may_expire e attempts nonce s =
      is unsigned_transaction_expired e
      && is_empty attempts
      && (not (is_some nonce) || tip_of s nonce)

  -- With the answer of the application's admission hook.
  unfoldable pub admit :
      Transaction → List TransactionAttempt → Bool → Result Time → Action (Unit {0})
  admit tx attempts resume (err e) = do
    expires ← gets (may_expire e attempts tx.assigned_nonce)
    if expires
        then (do
          abandon_transaction m (record tx { assigned_nonce = none })
              (codes "unsigned transaction expired before signing")
          fail (sentinel lane_state_changed))
        else fail (prefixed "attempt admission: %w" e)
  admit tx attempts resume (ok retry_at) = do
    time ← now m
    if ltb time retry_at
        then schedule_next_check_not_before m (deferred_row tx) attempts retry_at
        else resume_or_assign tx attempts resume

  unfoldable pub admission : Transaction → List TransactionAttempt → Bool → Action (Unit {0})
  admission tx attempts resume = elim m.before_attempt [
    | none ↦ resume_or_assign tx attempts resume
    | some gate ↦ do
      answer ← ask (λ t. gate t tx (not (is_empty attempts)))
      admit tx attempts resume answer
  ]
