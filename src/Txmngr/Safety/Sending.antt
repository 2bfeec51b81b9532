-- ===== src/Txmngr/Safety/Sending.antt =====
-- The scheduling, settling, sending and reconciling parts of a pass extend the durable state.
use superform_go_utils.Prelude.{
  ℕ, List, [], ◌∷◌, Option, none, some, Text, Bool, ◌≡◌, refl, All, get_last?, inl, inr,
  Option-cases, subst, arith,
}
use superform_go_utils.Txmngr.Types.{Hash, Time, SignedTx, Receipt, Transaction, TransactionAttempt}
use superform_go_utils.Txmngr.Errors.{Failure, RpcError}
use superform_go_utils.Txmngr.Mem.{Store}
use superform_go_utils.Txmngr.Action
use superform_go_utils.Txmngr.Action.{Action, State, ok, err, sent, emit, ◌>>=◌, ◌>>◌}
use superform_go_utils.Txmngr.Manager.{Manager, now, Reply, reply, refused}
use superform_go_utils.Txmngr.Schedule.{
  schedule_next_check_not_before, schedule_next_check, schedule_retry_after_block,
}
use superform_go_utils.Txmngr.Settle.{persist_terminal, finalize_transaction, abandon_transaction}
use superform_go_utils.Txmngr.Attempts.{
  newest, Found, found, missing, search_receipts, find_known_receipt, search_transactions,
  find_known_transaction, judge_receipt, judge_transaction,
}
use superform_go_utils.Txmngr.Send.{
  BroadcastPolicy, release_row, compare_pending, check_pending, judge_known,
  reconcile_rejected_submission, judge_failure, judge_pending, persist_evidence, judge_send,
  handle_broadcast_failure, send_candidate, broadcast_and_schedule,
}
use superform_go_utils.Txmngr.Safety.Durable.{HasHash-gives, IsDurable}
use superform_go_utils.Txmngr.Safety.Keeps.{
  Keeps, Keeps-pure, Keeps-fail, Keeps-lift, Keeps-gets, Keeps-ask, Keeps-try, Keeps-wrapping,
  Keeps-if, Keeps-bind, Keeps-bind-known, Keeps-update_lane, All-IsDurable-stable,
}
use superform_go_utils.Txmngr.Safety.Primitives.{
  Keeps-update_if_active, Keeps-result_observed, Keeps-barrier_observed, Keeps-record_send,
}

pub ruleset keeps_rules = (
  Keeps-pure, Keeps-fail, Keeps-lift, Keeps-gets, Keeps-ask, Keeps-try, Keeps-wrapping, Keeps-if,
  Keeps-bind, Keeps-update_lane, Keeps-update_if_active, Keeps-result_observed,
  Keeps-barrier_observed,
)

module _ (m : Manager) (xs : List TransactionAttempt) where
  pub Keeps-now : Keeps xs (now m)
  unfolding now
  Keeps-now = Keeps-ask xs m.now_at

  pub Keeps-schedule_not_before :
      (tx : Transaction) (attempts : List TransactionAttempt) (bound : Time)
      → Keeps xs (schedule_next_check_not_before m tx attempts bound)
  unfolding schedule_next_check_not_before
  Keeps-schedule_not_before tx attempts bound = search (keeps_rules, Keeps-now)

  pub Keeps-schedule_next_check :
      (tx : Transaction) (attempts : List TransactionAttempt)
      → Keeps xs (schedule_next_check m tx attempts)
  unfolding schedule_next_check
  Keeps-schedule_next_check tx attempts = Keeps-schedule_not_before tx attempts 0

  pub Keeps-schedule_retry :
      (tx : Transaction) (attempts : List TransactionAttempt)
      → Keeps xs (schedule_retry_after_block m tx attempts)
  unfolding schedule_retry_after_block
  Keeps-schedule_retry tx attempts = search (keeps_rules, Keeps-now, Keeps-schedule_not_before)

  pub Keeps-persist_terminal : (tx : Transaction) → Keeps xs (persist_terminal m tx)
  unfolding persist_terminal
  Keeps-persist_terminal tx = search (keeps_rules, Keeps-now)

  pub Keeps-finalize :
      (tx : Transaction) (winner : Option SignedTx) (receipt : Receipt)
      → Keeps xs (finalize_transaction m tx winner receipt)
  unfolding finalize_transaction
  Keeps-finalize tx winner receipt = search Keeps-persist_terminal

  pub Keeps-abandon :
      (tx : Transaction) (reason : Text) → Keeps xs (abandon_transaction m tx reason)
  unfolding abandon_transaction
  Keeps-abandon tx reason = search Keeps-persist_terminal

  pub Keeps-newest : (attempts : List TransactionAttempt) → Keeps xs (newest attempts)
  unfolding newest
  Keeps-newest attempts = elim (Option-cases (get_last? attempts)) [
    | inl e ↦ rw (e, newest) (search keeps_rules)
    | inr (a, e) ↦ rw (e, newest) (search keeps_rules)
  ]

  Keeps-search_receipts :
      (chain_id : ℕ) (last : Option Failure) (attempts : List TransactionAttempt)
      → Keeps xs (search_receipts m chain_id last attempts)
  unfolding search_receipts
  Keeps-search_receipts chain_id last [] = search keeps_rules
  Keeps-search_receipts chain_id last (a ∷ rest) = Keeps-bind xs _ _ (Keeps-ask xs _) λ answer.
      elim (judge_receipt m a last answer)
        as (λ o. Keeps {A = Found (Receipt × Option SignedTx)} xs (elim o [
          | found r ↦ Action.pure (found r)
          | missing e ↦ search_receipts m chain_id e rest
        ])) [
          | found r ↦ Keeps-pure xs (found r)
          | missing e ↦ Keeps-search_receipts chain_id e rest
        ]

  pub Keeps-find_receipt :
      (chain_id : ℕ) (attempts : List TransactionAttempt)
      → Keeps xs (find_known_receipt m chain_id attempts)
  unfolding find_known_receipt
  Keeps-find_receipt chain_id attempts = Keeps-search_receipts chain_id none attempts

  Keeps-search_transactions :
      (chain_id : ℕ) (last : Option Failure) (attempts : List TransactionAttempt)
      → Keeps xs (search_transactions m chain_id last attempts)
  unfolding search_transactions
  Keeps-search_transactions chain_id last [] = search keeps_rules
  Keeps-search_transactions chain_id last (a ∷ rest) = Keeps-bind xs _ _ (Keeps-ask xs _) λ answer.
      elim (judge_transaction m a last answer)
        as (λ o. Keeps {A = Found (Option SignedTx)} xs (elim o [
          | found r ↦ Action.pure (found r)
          | missing e ↦ search_transactions m chain_id e rest
        ])) [
          | found r ↦ Keeps-pure xs (found r)
          | missing e ↦ Keeps-search_transactions chain_id e rest
        ]

  Keeps-find_transaction :
      (chain_id : ℕ) (attempts : List TransactionAttempt)
      → Keeps xs (find_known_transaction m chain_id attempts)
  unfolding find_known_transaction
  Keeps-find_transaction chain_id attempts = Keeps-search_transactions chain_id none attempts

  pub Keeps-release : (tx : Transaction) → Keeps xs (release_row m tx)
  unfolding release_row
  Keeps-release tx = search (keeps_rules, Keeps-abandon)

  pub ruleset scheduling = (
    keeps_rules, Keeps-now, Keeps-schedule_not_before, Keeps-schedule_next_check,
    Keeps-schedule_retry, Keeps-finalize, Keeps-abandon, Keeps-newest, Keeps-release,
  )

  Keeps-compare_pending :
      (tx : Transaction) (attempts : List TransactionAttempt) (latest : TransactionAttempt)
      → (time : Time) (can_release : Bool) (pending_nonce : ℕ)
      → Keeps xs (compare_pending m tx attempts latest time can_release pending_nonce)
  unfolding compare_pending
  Keeps-compare_pending tx attempts latest time can_release pending_nonce = search scheduling

  Keeps-check_pending :
      (tx : Transaction) (attempts : List TransactionAttempt) (latest : TransactionAttempt)
      → (time : Time) (can_release : Bool)
      → Keeps xs (check_pending m tx attempts latest time can_release)
  unfolding check_pending
  Keeps-check_pending tx attempts latest time can_release =
      Keeps-bind xs _ _ (Keeps-ask xs _) λ answer. judged answer
    where
      judged :
          (answer : Reply ℕ) → Keeps xs (judge_pending m tx attempts latest time can_release answer)
      judged (reply pending_nonce) =
          Keeps-compare_pending tx attempts latest time can_release pending_nonce
      judged (refused e) = search scheduling

  Keeps-judge_known :
      (tx : Transaction) (attempts : List TransactionAttempt) (latest : TransactionAttempt)
      → (time : Time) (can_release : Bool) (known : Found (Option SignedTx))
      → Keeps xs (judge_known m tx attempts latest time can_release known)
  unfolding judge_known
  Keeps-judge_known tx attempts latest time can_release (missing (some e)) = search scheduling
  Keeps-judge_known tx attempts latest time can_release (found (some known)) = search scheduling
  Keeps-judge_known tx attempts latest time can_release (found none) =
      Keeps-check_pending tx attempts latest time can_release
  Keeps-judge_known tx attempts latest time can_release (missing none) =
      Keeps-check_pending tx attempts latest time can_release

  pub Keeps-reconcile :
      (tx : Transaction) (attempts : List TransactionAttempt) (time : Time) (can_release : Bool)
      → Keeps xs (reconcile_rejected_submission m tx attempts time can_release)
  unfolding reconcile_rejected_submission
  Keeps-reconcile tx attempts time can_release =
      search (scheduling, Keeps-find_transaction, Keeps-judge_known)

  Keeps-judge_failure :
      (tx : Transaction) (attempts : List TransactionAttempt) (time reconcile_after : Time)
      → (rejected may_reconcile releasable : Bool) (answer : Found (Receipt × Option SignedTx))
      → Keeps xs (
          judge_failure m tx attempts time reconcile_after rejected may_reconcile releasable answer)
  unfolding judge_failure
  Keeps-judge_failure tx attempts time reconcile_after rejected may releasable (found (r, w)) =
      search scheduling
  Keeps-judge_failure tx attempts time reconcile_after rejected may releasable (missing (some e)) =
      search scheduling
  Keeps-judge_failure tx attempts time reconcile_after rejected may releasable (missing none) =
      search (scheduling, Keeps-reconcile)

  Keeps-failure :
      (tx : Transaction) (attempts : List TransactionAttempt) (e : RpcError)
      → (policy : BroadcastPolicy) → Keeps xs (handle_broadcast_failure m tx attempts e policy)
  unfolding handle_broadcast_failure
  Keeps-failure tx attempts e policy =
      search (scheduling, Keeps-find_receipt, Keeps-judge_failure, evidence)
    where
      evidence :
          (row : Transaction) (armed : Option Hash)
          → Keeps xs (persist_evidence m row attempts armed)
      evidence row none = search scheduling
      evidence row (some hash) = search scheduling

last-IsDurable :
    (s : Store) (attempts : List TransactionAttempt) (a : TransactionAttempt)
    → get_last? attempts ≡ some a
    → All (IsDurable s) attempts
    → IsDurable s a
last-IsDurable s [] a e d = cc
last-IsDurable s (x ∷ []) a e d = let same : x ≡ a = cc in subst (IsDurable s) same d.0
last-IsDurable s (x ∷ y ∷ rest) a e d = last-IsDurable s (y ∷ rest) a e d.1

newest_result :
    (attempts : List TransactionAttempt) (s : State) (a : TransactionAttempt)
    → (newest attempts s).0 ≡ ok a
    → get_last? attempts ≡ some a
unfolding newest Action.pure Action.fail
newest_result attempts s a = ground arith

-- Only a durable candidate reaches a node.
Keeps-send_candidate :
    (m : Manager) (attempts : List TransactionAttempt) (chain_id : ℕ) (latest : TransactionAttempt)
    → (candidate : Option SignedTx) → latest.tx ≡ candidate
    → Keeps (latest ∷ attempts) (send_candidate m chain_id candidate)
unfolding send_candidate
Keeps-send_candidate m attempts chain_id latest none e = search keeps_rules
Keeps-send_candidate m attempts chain_id latest (some signed) e =
    Keeps-bind (latest ∷ attempts) _ _
      (Keeps-record_send (latest ∷ attempts) chain_id signed latest.transaction_id
        (λ s d. rw (HasHash-gives _ _ signed e d.0.matches) d.0.owned))
      (λ _. Keeps-ask (latest ∷ attempts) _)

pub Keeps-broadcast :
    (m : Manager) (tx : Transaction) (attempts : List TransactionAttempt) (policy : BroadcastPolicy)
    → Keeps attempts (broadcast_and_schedule m tx attempts policy)
unfolding broadcast_and_schedule
Keeps-broadcast m tx attempts policy =
    Keeps-bind-known attempts (newest attempts) _ (λ latest. latest ∷ attempts)
      (Keeps-newest m attempts attempts)
      (λ s a v d e.
        let h = (Keeps-newest m attempts attempts).at s v d in
        let d' = All-IsDurable-stable s.store _ attempts h.0 d in
        (last-IsDurable _ attempts a (newest_result attempts s a e) d', d'))
      λ latest.
        Keeps-bind (latest ∷ attempts) _ _
          (Keeps-send_candidate m attempts tx.chain_id latest latest.tx refl)
          λ answer. judged latest answer
  where
    judged :
        (latest : TransactionAttempt) (answer : Option RpcError)
        → Keeps (latest ∷ attempts) (judge_send m tx attempts policy answer)
    judged latest (some e) = Keeps-failure m (latest ∷ attempts) tx attempts e policy
    judged latest none = Keeps-schedule_next_check m (latest ∷ attempts) _ attempts
