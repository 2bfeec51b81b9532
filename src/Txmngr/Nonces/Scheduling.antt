-- ===== src/Txmngr/Nonces/Scheduling.antt =====
-- Scheduling and settling a row, and the searches among its attempts (evm/txmngr/txmngr.go), leave the
-- row its nonce.
use superform_go_utils.Prelude.{
  ℕ, List, [], ◌∷◌, Option, none, Text, if-preserves, get_last?, inl, inr, Option-cases,
}
use superform_go_utils.Txmngr.Types.{Time, SignedTx, Receipt, Transaction, TransactionAttempt}
use superform_go_utils.Txmngr.Errors.{Failure}
use superform_go_utils.Txmngr.Action
use superform_go_utils.Txmngr.Action.{Action, State, ok, err, sent, emit, ◌>>=◌, ◌>>◌}
use superform_go_utils.Txmngr.Manager.{Manager, now}
use superform_go_utils.Txmngr.Schedule.{
  schedule_next_check_not_before, schedule_next_check, schedule_retry_after_block, rescheduled,
}
use superform_go_utils.Txmngr.Settle.{
  persist_terminal, finalize_transaction, abandon_transaction, terminal_row, finalized, abandoned,
}
use superform_go_utils.Txmngr.Attempts.{
  newest, Found, found, missing, search_receipts, find_known_receipt, search_transactions,
  find_known_transaction, judge_receipt, judge_transaction,
}
use superform_go_utils.Txmngr.Nonces.{
  Named, Retains, Retains-pure, Retains-fail, Retains-ask, Retains-bind, Retains-emit,
  Retains-record_send, Retains-update, Retains-wrapping, Retains-if, retaining,
}

module _ (m : Manager) (id : Text) (n : ℕ) where
  pub Retains-now : Retains id n (now m)
  unfolding now
  Retains-now = Retains-ask id n m.now_at

  pub Retains-schedule_not_before :
      (tx : Transaction) (attempts : List TransactionAttempt) (bound : Time)
      → Named id n tx
      → Retains id n (schedule_next_check_not_before m tx attempts bound)
  unfolding schedule_next_check_not_before rescheduled
  Retains-schedule_not_before tx attempts bound h = Retains-bind id n _ _ Retains-now λ time.
      Retains-wrapping id n _ _ (Retains-update id n n (rescheduled m tx attempts bound time) h)

  pub Retains-schedule_next_check :
      (tx : Transaction) (attempts : List TransactionAttempt)
      → Named id n tx
      → Retains id n (schedule_next_check m tx attempts)
  unfolding schedule_next_check
  Retains-schedule_next_check tx attempts h = Retains-schedule_not_before tx attempts 0 h

  pub Retains-schedule_retry :
      (tx : Transaction) (attempts : List TransactionAttempt)
      → Named id n tx
      → Retains id n (schedule_retry_after_block m tx attempts)
  unfolding schedule_retry_after_block
  Retains-schedule_retry tx attempts h =
      search (retaining, Retains-now, Retains-schedule_not_before)

  terminal_row-Named :
      (k : ℕ) (tx : Transaction) (time : Time) → Named id k tx → Named id k (terminal_row tx time)
  unfolding terminal_row
  terminal_row-Named k tx time h = if-preserves (Named id k) _ _ _ (λ e. h) (λ e. h)

  Retains-persist_terminal :
      (k : ℕ) (tx : Transaction) → Named id k tx → Retains id n (persist_terminal m tx)
  unfolding persist_terminal
  Retains-persist_terminal k tx h = Retains-bind id n _ _ Retains-now λ time.
      Retains-bind id n _ _
        (Retains-wrapping id n _ _
          (Retains-update id n k (terminal_row tx time) (terminal_row-Named k tx time h)))
        λ _. Retains-emit id n _

  pub Retains-finalize :
      (k : ℕ) (tx : Transaction) (winner : Option SignedTx) (receipt : Receipt)
      → Named id k tx
      → Retains id n (finalize_transaction m tx winner receipt)
  unfolding finalize_transaction finalized
  Retains-finalize k tx winner receipt h =
      Retains-persist_terminal k (finalized tx winner receipt) h

  pub Retains-abandon :
      (tx : Transaction) (reason : Text)
      → Named id n tx
      → Retains id n (abandon_transaction m tx reason)
  unfolding abandon_transaction abandoned
  Retains-abandon tx reason h = Retains-persist_terminal n (abandoned tx reason) h

  pub Retains-newest : (attempts : List TransactionAttempt) → Retains id n (newest attempts)
  unfolding newest
  Retains-newest attempts = elim (Option-cases (get_last? attempts)) [
    | inl e ↦ rw (e, newest) (search retaining)
    | inr (a, e) ↦ rw (e, newest) (search retaining)
  ]

  Retains-search_receipts :
      (chain_id : ℕ) (last : Option Failure) (attempts : List TransactionAttempt)
      → Retains id n (search_receipts m chain_id last attempts)
  unfolding search_receipts
  Retains-search_receipts chain_id last [] = search retaining
  Retains-search_receipts chain_id last (a ∷ rest) =
      Retains-bind id n _ _ (Retains-ask id n _) λ answer.
        elim (judge_receipt m a last answer)
          as (λ o. Retains id n {A = Found (Receipt × Option SignedTx)} (elim o [
            | found r ↦ Action.pure (found r)
            | missing e ↦ search_receipts m chain_id e rest
          ])) [
            | found r ↦ Retains-pure id n (found r)
            | missing e ↦ Retains-search_receipts chain_id e rest
          ]

  pub Retains-find_receipt :
      (chain_id : ℕ) (attempts : List TransactionAttempt)
      → Retains id n (find_known_receipt m chain_id attempts)
  unfolding find_known_receipt
  Retains-find_receipt chain_id attempts = Retains-search_receipts chain_id none attempts

  Retains-search_transactions :
      (chain_id : ℕ) (last : Option Failure) (attempts : List TransactionAttempt)
      → Retains id n (search_transactions m chain_id last attempts)
  unfolding search_transactions
  Retains-search_transactions chain_id last [] = search retaining
  Retains-search_transactions chain_id last (a ∷ rest) =
      Retains-bind id n _ _ (Retains-ask id n _) λ answer.
        elim (judge_transaction m a last answer)
          as (λ o. Retains id n {A = Found (Option SignedTx)} (elim o [
            | found r ↦ Action.pure (found r)
            | missing e ↦ search_transactions m chain_id e rest
          ])) [
            | found r ↦ Retains-pure id n (found r)
            | missing e ↦ Retains-search_transactions chain_id e rest
          ]

  pub Retains-find_transaction :
      (chain_id : ℕ) (attempts : List TransactionAttempt)
      → Retains id n (find_known_transaction m chain_id attempts)
  unfolding find_known_transaction
  Retains-find_transaction chain_id attempts = Retains-search_transactions chain_id none attempts

  pub ruleset scheduling = (
    retaining, Retains-now, Retains-schedule_not_before, Retains-schedule_next_check,
    Retains-schedule_retry, Retains-finalize, Retains-abandon, Retains-newest,
  )
