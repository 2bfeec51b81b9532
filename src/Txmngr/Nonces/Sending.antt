-- ===== src/Txmngr/Nonces/Sending.antt =====
-- Sending a candidate and reconciling a rejected one (evm/txmngr/txmngr.go) leave the row its nonce when
-- the code may not release it.
use superform_go_utils.Prelude.{ℕ, List, Option, none, some, Text, Bool, false, ◌≡◌}
use superform_go_utils.Txmngr.Types.{Hash, Time, SignedTx, Receipt, Transaction, TransactionAttempt}
use superform_go_utils.Txmngr.Errors.{RpcError}
use superform_go_utils.Txmngr.Broadcast.{
  BroadcastErrorDisposition, ambiguous, already_known, nonce_consumed, fee_rejected,
  transaction_rejected_retryable, transaction_rejected_permanent, classify_broadcast_error,
}
use superform_go_utils.Txmngr.Manager.{Manager, Reply, reply, refused}
use superform_go_utils.Txmngr.Attempts.{Found, found, missing}
use superform_go_utils.Txmngr.Send.{
  BroadcastPolicy, after_answer, answered_row, compare_pending, check_pending, judge_known,
  reconcile_rejected_submission, judge_failure, judge_pending, persist_evidence, judge_send,
  handle_broadcast_failure, send_candidate, broadcast_and_schedule,
}
use superform_go_utils.Txmngr.Nonces.{
  Named, Retains, Retains-ask, Retains-bind, Retains-record_send, retaining,
}
use superform_go_utils.Txmngr.Nonces.Scheduling.{
  scheduling, Retains-now, Retains-newest, Retains-find_receipt, Retains-find_transaction,
}

module _ (m : Manager) (id : Text) (n : ℕ) where
  Retains-compare_pending :
      (tx : Transaction) (attempts : List TransactionAttempt) (latest : TransactionAttempt)
      → (time : Time) (can_release : Bool) (pending_nonce : ℕ) → Named id n tx
      → can_release ≡ false
      → Retains id n (compare_pending m tx attempts latest time can_release pending_nonce)
  unfolding compare_pending
  Retains-compare_pending tx attempts latest time can_release pending_nonce h stuck =
      rw (stuck, compare_pending) (search scheduling)

  Retains-check_pending :
      (tx : Transaction) (attempts : List TransactionAttempt) (latest : TransactionAttempt)
      → (time : Time) (can_release : Bool) → Named id n tx
      → can_release ≡ false
      → Retains id n (check_pending m tx attempts latest time can_release)
  unfolding check_pending
  Retains-check_pending tx attempts latest time can_release h stuck =
      Retains-bind id n _ _ (Retains-ask id n _) λ answer. judged answer
    where
      judged :
          (answer : Reply ℕ)
          → Retains id n (judge_pending m tx attempts latest time can_release answer)
      judged (reply pending_nonce) =
          Retains-compare_pending tx attempts latest time can_release pending_nonce h stuck
      judged (refused e) = search scheduling

  Retains-judge_known :
      (tx : Transaction) (attempts : List TransactionAttempt) (latest : TransactionAttempt)
      → (time : Time) (can_release : Bool) (known : Found (Option SignedTx)) → Named id n tx
      → can_release ≡ false
      → Retains id n (judge_known m tx attempts latest time can_release known)
  unfolding judge_known
  Retains-judge_known tx attempts latest time can_release (missing (some e)) h stuck =
      search scheduling
  Retains-judge_known tx attempts latest time can_release (found (some known)) h stuck =
      search scheduling
  Retains-judge_known tx attempts latest time can_release (found none) h stuck =
      Retains-check_pending tx attempts latest time can_release h stuck
  Retains-judge_known tx attempts latest time can_release (missing none) h stuck =
      Retains-check_pending tx attempts latest time can_release h stuck

  pub Retains-reconcile :
      (tx : Transaction) (attempts : List TransactionAttempt) (time : Time) (can_release : Bool)
      → Named id n tx
      → can_release ≡ false
      → Retains id n (reconcile_rejected_submission m tx attempts time can_release)
  unfolding reconcile_rejected_submission
  Retains-reconcile tx attempts time can_release h stuck =
      search (scheduling, Retains-find_transaction, Retains-judge_known)

  after_answer-Named :
      (d : BroadcastErrorDisposition) (may : Bool) (hash : Hash) (reason : Text) (time : Time)
      → (tx : Transaction) → Named id n tx
      → Named id n (after_answer d may hash reason time tx)
  unfolding after_answer
  after_answer-Named ambiguous may hash reason time tx h = h
  after_answer-Named already_known may hash reason time tx h = h
  after_answer-Named nonce_consumed may hash reason time tx h = h
  after_answer-Named fee_rejected may hash reason time tx h = h
  after_answer-Named transaction_rejected_retryable may hash reason time tx h = h
  after_answer-Named transaction_rejected_permanent may hash reason time tx h = h

  answered_row-Named :
      (tx : Transaction) (latest : TransactionAttempt) (e : RpcError) (policy : BroadcastPolicy)
      → (time : Time) → Named id n tx
      → Named id n (answered_row m tx latest e policy time)
  unfolding answered_row
  answered_row-Named tx latest e policy time h =
      after_answer-Named (classify_broadcast_error e) _ latest.hash _ time tx h

  Retains-judge_failure :
      (tx : Transaction) (attempts : List TransactionAttempt) (time reconcile_after : Time)
      → (rejected may_reconcile releasable : Bool) (answer : Found (Receipt × Option SignedTx))
      → Named id n tx
      → releasable ≡ false
      → Retains id n (
          judge_failure m tx attempts time reconcile_after rejected may_reconcile releasable answer)
  unfolding judge_failure
  Retains-judge_failure tx attempts time reconcile_after rejected may releasable (found (r, w)) h
        stuck =
      search scheduling
  Retains-judge_failure tx attempts time reconcile_after rejected may releasable (missing (some e))
        h stuck =
      search scheduling
  Retains-judge_failure tx attempts time reconcile_after rejected may releasable (missing none) h
        stuck =
      search (scheduling, Retains-reconcile)

  Retains-failure :
      (tx : Transaction) (attempts : List TransactionAttempt) (e : RpcError)
      → (policy : BroadcastPolicy) → Named id n tx
      → policy.nonce_releasable ≡ false
      → Retains id n (handle_broadcast_failure m tx attempts e policy)
  unfolding handle_broadcast_failure
  Retains-failure tx attempts e policy h stuck =
      Retains-bind id n _ _ (Retains-newest m id n attempts) λ latest.
        Retains-bind id n _ _ (Retains-now m id n) λ time.
          let row = answered_row m tx latest e policy time in
          let k = answered_row-Named tx latest e policy time h in
          Retains-bind id n _ _ (evidence row row.rejected_attempt_hash k) λ _.
            Retains-bind id n _ _ (Retains-find_receipt m id n tx.chain_id attempts) λ receipt.
              Retains-judge_failure row attempts time _ _ _ policy.nonce_releasable receipt k stuck
    where
      evidence :
          (row : Transaction) (armed : Option Hash)
          → Named id n row
          → Retains id n (persist_evidence m row attempts armed)
      evidence row none k = search scheduling
      evidence row (some hash) k = search scheduling

  Retains-send_candidate :
      (chain_id : ℕ) (candidate : Option SignedTx)
      → Retains id n (send_candidate m chain_id candidate)
  unfolding send_candidate
  Retains-send_candidate chain_id none = search retaining
  Retains-send_candidate chain_id (some signed) = search (retaining, Retains-record_send)

  pub Retains-broadcast :
      (tx : Transaction) (attempts : List TransactionAttempt) (policy : BroadcastPolicy)
      → Named id n tx
      → policy.nonce_releasable ≡ false
      → Retains id n (broadcast_and_schedule m tx attempts policy)
  unfolding broadcast_and_schedule
  Retains-broadcast tx attempts policy h stuck =
      search (retaining, Retains-newest, Retains-send_candidate, judged)
    where
      judged : (answer : Option RpcError) → Retains id n (judge_send m tx attempts policy answer)
      judged (some e) = Retains-failure tx attempts e policy h stuck
      judged none = search scheduling
