-- ===== src/Txmngr/Nonces/Stepping.antt =====
-- A pass over a row, `processTransactionStep` of evm/txmngr/txmngr.go, leaves the row its nonce when
-- the lane is past it.
use superform_go_utils.Prelude.{
  ℕ, List, [], ◌∷◌, Option, none, some, Text, Bool, true, false, ◌≡◌, refl, subst, sym, inl, inr,
  Bool-cases, if-preserves, nat_eq, ◌==◌,
}
use superform_go_utils.Txmngr.Types.{
  Address, Hash, Time, Receipt, SignedTx, Transaction, TransactionAttempt,
}
use superform_go_utils.Txmngr.Action.{State, Result, ok, err}
use superform_go_utils.Txmngr.Manager.{Manager}
use superform_go_utils.Txmngr.Attempts.{Found, found, missing}
use superform_go_utils.Txmngr.Step.{
  bump_window, consumed_or_bump, reconcile_or_retry, rejected_or_active, own_sender,
  agree_with_attempts, judge_known_receipt, adopted_row, observe_own, adopt_attempts, with_attempts,
  legacy_checked, recover_legacy, recover_or_go, process_transaction_step, defaulted_sender,
}
use superform_go_utils.Txmngr.Nonces.{
  HasNonce, Past, Named, Retains, Retains-fail, Retains-bind, Retains-if, Retains-read,
  Retains-insert, Retains-observe, Retains-pure, retaining,
}
use superform_go_utils.Txmngr.Nonces.Scheduling.{
  scheduling, Retains-now, Retains-find_receipt, Retains-finalize, Retains-newest,
  Retains-schedule_retry,
}
use superform_go_utils.Txmngr.Nonces.Sending.{Retains-reconcile}
use superform_go_utils.Txmngr.Nonces.Assigning.{not_tip, Retains-poll, Retains-admission}

module _ (m : Manager) (id : Text) (n : ℕ) where
  Retains-bump_window :
      (tx : Transaction) (attempts : List TransactionAttempt) (resume : Bool)
      → Named id n tx
      → Retains id n (bump_window m tx attempts resume)
  unfolding bump_window
  Retains-bump_window tx attempts resume h = search (scheduling, Retains-admission m id n)

  Retains-consumed :
      (tx : Transaction) (attempts : List TransactionAttempt) (resume : Bool) (at : Option Time)
      → Named id n tx
      → Retains id n (consumed_or_bump m tx attempts resume at)
  unfolding consumed_or_bump
  Retains-consumed tx attempts resume none h = Retains-bump_window tx attempts resume h
  Retains-consumed tx attempts resume (some at) h =
      search (retaining, Retains-bump_window, Retains-poll m id n)

  Retains-reconcile_or_retry :
      (tx : Transaction) (attempts : List TransactionAttempt) (failed_read : Bool)
      → Named id n tx
      → Retains id n (reconcile_or_retry m tx attempts failed_read)
  unfolding reconcile_or_retry
  Retains-reconcile_or_retry tx attempts failed_read h =
      Retains-if id n _ _ _ (Retains-schedule_retry m id n tx attempts h) (
        Retains-bind id n _ _ (Retains-now m id n) λ time.
          Retains-read id n _ _
            (λ s past. Retains-reconcile m id n tx attempts time _ h (not_tip m id n tx s h past)))

  Retains-rejected :
      (tx : Transaction) (attempts : List TransactionAttempt) (failed_read : Bool)
      → (armed : Option Hash) → Named id n tx
      → Retains id n (rejected_or_active m tx attempts failed_read armed)
  unfolding rejected_or_active
  Retains-rejected tx attempts failed_read none h = Retains-consumed tx attempts _ _ h
  Retains-rejected tx attempts failed_read (some hash) h =
      search (retaining, Retains-reconcile_or_retry)

  Retains-own_sender :
      (tx : Transaction) (attempts : List TransactionAttempt) (failed_read : Bool)
      → Named id n tx
      → Retains id n (own_sender m tx attempts failed_read)
  unfolding own_sender
  Retains-own_sender tx attempts failed_read h = search (retaining, Retains-rejected)

  -- The attempts agree with the row on the nonce, or the pass over the row fails.
  Retains-agree :
      (stored_sender : Address) (signer : Address) (nonce : ℕ) (tx : Transaction)
      → (attempts : List TransactionAttempt) (failed_read : Bool) → Named id nonce tx
      → Retains id n
          (agree_with_attempts m stored_sender (some n) signer nonce tx attempts failed_read)
  unfolding agree_with_attempts
  Retains-agree stored_sender signer nonce tx attempts failed_read h =
      elim (Bool-cases (n == nonce)) [
        | inl e ↦
            let same : nonce ≡ n = sym ((nat_eq.same_iff n nonce).0 e) in
            let named : Named id n tx = subst (λ k. Named id k tx) same h in
            search (retaining, Retains-own_sender)
        | inr e ↦ rw (e, agree_with_attempts) (Retains-fail id n _)
      ]

  Retains-judge_known_receipt :
      (stored_sender : Address) (signer : Address) (nonce : ℕ) (tx : Transaction)
      → (attempts : List TransactionAttempt) (answer : Found (Receipt × Option SignedTx))
      → Named id nonce tx
      → Retains id n (judge_known_receipt m stored_sender (some n) signer nonce tx attempts answer)
  unfolding judge_known_receipt
  Retains-judge_known_receipt stored_sender signer nonce tx attempts (found (r, w)) h =
      Retains-finalize m id n nonce tx w r h
  Retains-judge_known_receipt stored_sender signer nonce tx attempts (missing (some e)) h =
      Retains-agree stored_sender signer nonce _ attempts true h
  Retains-judge_known_receipt stored_sender signer nonce tx attempts (missing none) h =
      Retains-agree stored_sender signer nonce tx attempts false h

  adopted_row-Named :
      (tx : Transaction) (signer : Address) (nonce : ℕ) (latest : TransactionAttempt)
      → tx.id ≡ id
      → Named id nonce (adopted_row m tx signer nonce latest)
  unfolding adopted_row
  adopted_row-Named tx signer nonce latest same =
      if-preserves (Named id nonce) _ _ _ (λ e. (same, refl)) (λ e. (same, refl))

  Retains-adopt :
      (tx : Transaction) (attempts : List TransactionAttempt) (checked : Result (Address × ℕ))
      → Named id n tx
      → Retains id n (adopt_attempts m tx attempts checked)
  unfolding adopt_attempts
  Retains-adopt tx attempts (err e) h = Retains-fail id n _
  Retains-adopt tx attempts (ok (signer, nonce)) h = Retains-bind id n _ _ observed λ _.
      Retains-bind id n _ _ (Retains-newest m id n attempts) λ latest.
        Retains-bind id n _ _ (Retains-find_receipt m id n tx.chain_id attempts) λ receipt.
          subst
            (λ o. Retains id n (
              judge_known_receipt m tx.sender o signer nonce (adopted_row m tx signer nonce latest)
                attempts receipt))
            (sym h.1)
            (Retains-judge_known_receipt tx.sender signer nonce
              (adopted_row m tx signer nonce latest) attempts receipt
              (adopted_row-Named tx signer nonce latest h.0))
    where
      observed : Retains id n (observe_own m signer nonce)
      observed = Retains-if id n _ _ _ (Retains-observe id n nonce) (Retains-pure id n tt)

  Retains-with_attempts :
      (tx : Transaction) (attempts : List TransactionAttempt)
      → Named id n tx
      → Retains id n (with_attempts m tx attempts)
  unfolding with_attempts
  Retains-with_attempts tx attempts h =
      let named : Named id n (defaulted_sender m tx) =
        if-preserves (Named id n) _ _ _ (λ e. h) (λ e. h) in
      search (retaining, Retains-own_sender, Retains-adopt)

  Retains-recover_legacy :
      (tx : Transaction) (signed : SignedTx)
      → Named id n tx
      → Retains id n (recover_legacy m tx signed)
  unfolding recover_legacy
  Retains-recover_legacy tx signed h =
      search (retaining, Retains-now, checked, Retains-insert, Retains-with_attempts) depth 12
    where
      checked : (r : Result (Address × ℕ)) → Retains id n (legacy_checked m r)
      checked (ok r) = search retaining
      checked (err e) = search retaining

  Retains-recover_or_go :
      (tx : Transaction) (attempts : List TransactionAttempt) (stored : Option SignedTx)
      → Named id n tx
      → Retains id n (recover_or_go m tx attempts stored)
  unfolding recover_or_go
  Retains-recover_or_go tx [] (some signed) h = Retains-recover_legacy tx signed h
  Retains-recover_or_go tx [] none h = Retains-with_attempts tx [] h
  Retains-recover_or_go tx (a ∷ rest) stored h = Retains-with_attempts tx (a ∷ rest) h

  Retains-step : (tx : Transaction) → Named id n tx → Retains id n (process_transaction_step m tx)
  unfolding process_transaction_step
  Retains-step tx h = search (retaining, Retains-recover_or_go)

-- A pass over a row whose nonce is n, and which the queue holds with an assigned nonce, leaves the stored
-- row with an assigned nonce when the lane is past n, that is when it is known and its next nonce is
-- above n + 1 as a uint64: whatever the nodes, the signer and the hooks answer and whichever error the pass ends
-- with. The lane is then still past n.
pub process_transaction_step-keeps_nonce :
    (m : Manager) (tx : Transaction) (n : ℕ) (s : State)
    → tx.assigned_nonce ≡ some n
    → HasNonce tx.id s.store
    → Past n s.lane
    → HasNonce tx.id (process_transaction_step m tx s).1.store
      × Past n (process_transaction_step m tx s).1.lane
process_transaction_step-keeps_nonce m tx n s named held past =
    (Retains-step m tx.id n tx (refl, named)).at s held past
