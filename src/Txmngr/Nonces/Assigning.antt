-- ===== src/Txmngr/Nonces/Assigning.antt =====
-- The part of `processTransactionStep` (evm/txmngr/txmngr.go) that admits a row, gives it a nonce, signs
-- and sends leaves the row the nonce that it has.
use superform_go_utils.Prelude.{
  ℕ, List, Text, Bool, true, false, ◌≡◌, refl, ap, ◌∙◌, arith, inl, inr, Option-cases, nat_eq,
  is_some,
}
use superform_go_utils.Txmngr.Types.{Time, Transaction, TransactionAttempt}
use superform_go_utils.Txmngr.Errors.{Failure}
use superform_go_utils.Txmngr.Action.{State, Result, ok, err}
use superform_go_utils.Txmngr.Manager.{Manager}
use superform_go_utils.Txmngr.Step.{
  tip_of, may_expire, poll_consumed_nonce, create_and_broadcast_attempt, candidate_row,
  sign_or_resend, ensure_nonce, resume_or_assign, admit, admission,
}
use superform_go_utils.Txmngr.Nonces.{
  Past, Named, Past-is_tip, Retains, Retains-fail, Retains-bind, Retains-if, Retains-unless,
  Retains-read, Retains-update, Retains-wrapping, retaining,
}
use superform_go_utils.Txmngr.Nonces.Scheduling.{scheduling}
use superform_go_utils.Txmngr.Nonces.Sending.{Retains-broadcast}
use superform_go_utils.Txmngr.Nonces.Signing.{Retains-persist_unique}

module _ (m : Manager) (id : Text) (n : ℕ) where
  -- What the code reads of the lane before it would give the nonce back.
  pub not_tip :
      (tx : Transaction) (s : State)
      → Named id n tx
      → Past n s.lane
      → tip_of s tx.assigned_nonce ≡ false
  not_tip tx s h past = ap (tip_of s) h.1 ∙ Past-is_tip n s.lane past

  pub Retains-poll :
      (tx : Transaction) (consumed_at : Time) (attempts : List TransactionAttempt)
      → Named id n tx
      → Retains id n (poll_consumed_nonce m tx consumed_at attempts)
  unfolding poll_consumed_nonce
  Retains-poll tx consumed_at attempts h = search scheduling

  Retains-create :
      (tx : Transaction) (attempts : List TransactionAttempt) (can_release : Bool)
      → Named id n tx
      → can_release ≡ false
      → Retains id n (create_and_broadcast_attempt m tx attempts can_release)
  unfolding create_and_broadcast_attempt candidate_row
  Retains-create tx attempts can_release h stuck = Retains-if id n _ _ _ (Retains-fail id n _) (
      Retains-bind id n _ _ (Retains-persist_unique m id n tx attempts) λ attempt.
        Retains-bind id n _ _
          (Retains-wrapping id n _ _ (Retains-update id n n (candidate_row m tx attempt) h))
          λ _. Retains-broadcast m id n (candidate_row m tx attempt) _ _ h stuck)

  Retains-sign_or_resend :
      (tx : Transaction) (attempts : List TransactionAttempt) (tip : Bool)
      → Named id n tx
      → tip ≡ false
      → Retains id n (sign_or_resend m tx attempts tip)
  unfolding sign_or_resend
  Retains-sign_or_resend tx attempts tip h stuck =
      Retains-if id n _ _ _ (Retains-create tx attempts tip h stuck) (
        Retains-if id n _ _ _ (Retains-create tx attempts false h refl)
          (Retains-broadcast m id n tx attempts _ h stuck))

  Retains-ensure_nonce :
      (tx : Transaction) (attempts : List TransactionAttempt)
      → Named id n tx
      → Retains id n (ensure_nonce m tx attempts)
  unfolding ensure_nonce
  Retains-ensure_nonce tx attempts h =
      rw (h.1, ensure_nonce)
        (Retains-read id n _ _
          (λ s past. Retains-sign_or_resend tx attempts _ h (Past-is_tip n s.lane past)))

  Retains-resume :
      (tx : Transaction) (attempts : List TransactionAttempt) (resume : Bool)
      → Named id n tx
      → Retains id n (resume_or_assign m tx attempts resume)
  unfolding resume_or_assign
  Retains-resume tx attempts resume h =
      Retains-if id n _ _ _
        (Retains-read id n _ _
          (λ s past. Retains-broadcast m id n tx attempts _ h (not_tip tx s h past)))
        (Retains-ensure_nonce tx attempts h)

  not_expired :
      (e : Failure) (tx : Transaction) (attempts : List TransactionAttempt) (s : State)
      → Named id n tx
      → Past n s.lane
      → may_expire m e attempts tx.assigned_nonce s ≡ false
  not_expired e tx attempts s h past =
      let assigned : is_some tx.assigned_nonce ≡ true = ap is_some h.1 in
      ground (arith, assigned, not_tip tx s h past)

  Retains-admit :
      (tx : Transaction) (attempts : List TransactionAttempt) (resume : Bool) (r : Result Time)
      → Named id n tx
      → Retains id n (admit m tx attempts resume r)
  unfolding admit
  Retains-admit tx attempts resume (err e) h = Retains-read id n _ _ (λ s past.
      Retains-unless id n _ _ _ (not_expired e tx attempts s h past) (Retains-fail id n _))
  Retains-admit tx attempts resume (ok retry_at) h = search (scheduling, Retains-resume)

  pub Retains-admission :
      (tx : Transaction) (attempts : List TransactionAttempt) (resume : Bool)
      → Named id n tx
      → Retains id n (admission m tx attempts resume)
  unfolding admission
  Retains-admission tx attempts resume h = elim (Option-cases m.before_attempt) [
    | inl e ↦ rw (e, admission) (Retains-resume tx attempts resume h)
    | inr (gate, e) ↦ rw (e, admission) (search (retaining, Retains-admit))
  ]
