-- ===== src/Txmngr/Safety/Stepping.antt =====
-- `processTransactionStep` of evm/txmngr/txmngr.go extends the durable state.
use superform_go_utils.Prelude.{
  ℕ, List, [], ◌∷◌, ◌++◌, Option, none, some, Text, Bool, true, false, ◌≡◌, refl, All, inl, inr,
  Option-cases, Bool-cases, subst,
}
use superform_go_utils.Prelude.Sort.{sort_stable, insert_sorted, is_gt}
use superform_go_utils.Txmngr.Types.{
  Address, Hash, Time, Receipt, SignedTx, Transaction, TransactionAttempt,
}
use superform_go_utils.Txmngr.Errors.{Failure}
use superform_go_utils.Txmngr.Mem.{attempts_of, insert_attempt, select_attempts}
use superform_go_utils.Txmngr.Action.{State, Result, ok, err, gets, write, wrapping}
use Prim.Native.Nat.{Ordering}
use superform_go_utils.Txmngr.Manager.{Manager, Reply, reply, refused}
use superform_go_utils.Txmngr.Attempts.{Found, found, missing}
use superform_go_utils.Txmngr.Step.{
  poll_consumed_nonce, create_and_broadcast_attempt, sign_or_resend, assign_nonce, reserve_nonce,
  ensure_nonce, resume_or_assign, admit, admission, bump_window, consumed_or_bump,
  reconcile_or_retry, rejected_or_active, own_sender, agree_with_attempts, judge_known_receipt,
  adopt_attempts, with_attempts, legacy_time, legacy_checked, recover_legacy, recover_or_go,
  process_transaction_step, legacy_attempt,
}
use superform_go_utils.Txmngr.Safety.Durable.{IsDurable, IsValid}
use superform_go_utils.Txmngr.Safety.Keeps.{
  Keeps, Keeps-bind, Keeps-bind-known, Keeps-fail, Keeps-gets, Keeps-if, Keeps-wrapping,
  All-IsDurable-stable,
}
use superform_go_utils.Txmngr.Safety.Primitives.{
  Keeps-insert_attempt, insert_attempt-IsDurable, All-append, Keeps-update_if_active,
}
use superform_go_utils.Txmngr.Safety.Sending.{
  keeps_rules, scheduling, Keeps-now, Keeps-broadcast, Keeps-reconcile, Keeps-find_receipt,
}
use superform_go_utils.Txmngr.Safety.Signing.{
  Keeps-persist_unique, Yields-persist_unique, same_hash,
}

module _ (m : Manager) where
  Keeps-poll :
      (xs attempts : List TransactionAttempt) (tx : Transaction) (consumed_at : Time)
      → Keeps xs (poll_consumed_nonce m tx consumed_at attempts)
  unfolding poll_consumed_nonce
  Keeps-poll xs attempts tx consumed_at = search scheduling

  -- Reading: the attempts in hand are durable throughout.
  Keeps-create :
      (tx : Transaction) (attempts : List TransactionAttempt) (can_release : Bool)
      → Keeps attempts (create_and_broadcast_attempt m tx attempts can_release)
  unfolding create_and_broadcast_attempt
  Keeps-create tx attempts can_release = Keeps-if attempts _ _ _ (Keeps-fail attempts _) (
      Keeps-bind-known attempts _ _ (λ a. attempts ++ a ∷ [])
        (Keeps-persist_unique m attempts tx attempts)
        (λ s a v d e.
          All-append (IsDurable _) attempts (a ∷ [])
            (All-IsDurable-stable s.store _ attempts
              ((Keeps-persist_unique m attempts tx attempts).at s v d).0 d)
            ((Yields-persist_unique m tx attempts).at s a e, tt))
        (λ a.
          Keeps-bind (attempts ++ a ∷ []) _ _
            (Keeps-wrapping (attempts ++ a ∷ []) _ _
              (Keeps-update_if_active (attempts ++ a ∷ []) _))
            (λ _. Keeps-broadcast m _ (attempts ++ a ∷ []) _)))

  Keeps-sign_or_resend :
      (tx : Transaction) (attempts : List TransactionAttempt) (tip : Bool)
      → Keeps attempts (sign_or_resend m tx attempts tip)
  unfolding sign_or_resend
  Keeps-sign_or_resend tx attempts tip = search (keeps_rules, Keeps-create, Keeps-broadcast)

  Keeps-assign_nonce :
      (tx : Transaction) (attempts : List TransactionAttempt) (rpc_nonce : ℕ) (nonce : Option ℕ)
      → Keeps attempts (assign_nonce m tx attempts rpc_nonce nonce)
  unfolding assign_nonce
  Keeps-assign_nonce tx attempts rpc_nonce none = search keeps_rules
  Keeps-assign_nonce tx attempts rpc_nonce (some nonce) =
      search (keeps_rules, Keeps-now, Keeps-sign_or_resend) depth 12

  Keeps-ensure_nonce :
      (tx : Transaction) (attempts : List TransactionAttempt)
      → Keeps attempts (ensure_nonce m tx attempts)
  unfolding ensure_nonce
  Keeps-ensure_nonce tx attempts = elim (Option-cases tx.assigned_nonce) [
    | inl e ↦ rw (e, ensure_nonce) (search (keeps_rules, reserved))
    | inr (nonce, e) ↦ rw (e, ensure_nonce) (search (keeps_rules, Keeps-sign_or_resend))
  ]
    where
      reserved : (answer : Reply ℕ) → Keeps attempts (reserve_nonce m tx attempts answer)
      reserved (reply rpc_nonce) = search (keeps_rules, Keeps-assign_nonce)
      reserved (refused e) = search keeps_rules

  Keeps-resume :
      (tx : Transaction) (attempts : List TransactionAttempt) (resume : Bool)
      → Keeps attempts (resume_or_assign m tx attempts resume)
  unfolding resume_or_assign
  Keeps-resume tx attempts resume = search (keeps_rules, Keeps-broadcast, Keeps-ensure_nonce)

  Keeps-admit :
      (tx : Transaction) (attempts : List TransactionAttempt) (resume : Bool) (r : Result Time)
      → Keeps attempts (admit m tx attempts resume r)
  unfolding admit
  Keeps-admit tx attempts resume (err e) = search scheduling
  Keeps-admit tx attempts resume (ok retry_at) = search (scheduling, Keeps-resume)

  Keeps-admission :
      (tx : Transaction) (attempts : List TransactionAttempt) (resume : Bool)
      → Keeps attempts (admission m tx attempts resume)
  unfolding admission
  Keeps-admission tx attempts resume = elim (Option-cases m.before_attempt) [
    | inl e ↦ rw (e, admission) (Keeps-resume tx attempts resume)
    | inr (gate, e) ↦ rw (e, admission) (search (keeps_rules, Keeps-admit))
  ]

  Keeps-bump_window :
      (tx : Transaction) (attempts : List TransactionAttempt) (resume : Bool)
      → Keeps attempts (bump_window m tx attempts resume)
  unfolding bump_window
  Keeps-bump_window tx attempts resume = search (scheduling, Keeps-admission)

  Keeps-consumed :
      (tx : Transaction) (attempts : List TransactionAttempt) (resume : Bool) (at : Option Time)
      → Keeps attempts (consumed_or_bump m tx attempts resume at)
  unfolding consumed_or_bump
  Keeps-consumed tx attempts resume none = Keeps-bump_window tx attempts resume
  Keeps-consumed tx attempts resume (some at) = search (keeps_rules, Keeps-bump_window, Keeps-poll)

  Keeps-rejected :
      (tx : Transaction) (attempts : List TransactionAttempt) (failed_read : Bool)
      → (armed : Option Hash) → Keeps attempts (rejected_or_active m tx attempts failed_read armed)
  unfolding rejected_or_active reconcile_or_retry
  Keeps-rejected tx attempts failed_read none = Keeps-consumed tx attempts _ _
  Keeps-rejected tx attempts failed_read (some hash) = search (scheduling, Keeps-reconcile) depth 10

  Keeps-own_sender :
      (tx : Transaction) (attempts : List TransactionAttempt) (failed_read : Bool)
      → Keeps attempts (own_sender m tx attempts failed_read)
  unfolding own_sender
  Keeps-own_sender tx attempts failed_read = search (keeps_rules, Keeps-rejected)

  Keeps-agree :
      (stored_sender : Address) (stored_nonce : Option ℕ) (signer : Address) (nonce : ℕ)
      → (tx : Transaction) (attempts : List TransactionAttempt) (failed_read : Bool)
      → Keeps attempts
          (agree_with_attempts m stored_sender stored_nonce signer nonce tx attempts failed_read)
  unfolding agree_with_attempts
  Keeps-agree stored_sender stored_nonce signer nonce tx attempts failed_read =
      search (keeps_rules, Keeps-own_sender)

  Keeps-judge_known_receipt :
      (stored_sender : Address) (stored_nonce : Option ℕ) (signer : Address) (nonce : ℕ)
      → (tx : Transaction) (attempts : List TransactionAttempt)
      → (answer : Found (Receipt × Option SignedTx))
      → Keeps attempts
          (judge_known_receipt m stored_sender stored_nonce signer nonce tx attempts answer)
  unfolding judge_known_receipt
  Keeps-judge_known_receipt stored_sender stored_nonce signer nonce tx attempts (found (r, w)) =
      search scheduling
  Keeps-judge_known_receipt stored_sender stored_nonce signer nonce tx attempts (missing (some e)) =
      Keeps-agree stored_sender stored_nonce signer nonce _ attempts true
  Keeps-judge_known_receipt stored_sender stored_nonce signer nonce tx attempts (missing none) =
      Keeps-agree stored_sender stored_nonce signer nonce tx attempts false

  Keeps-adopt :
      (tx : Transaction) (attempts : List TransactionAttempt) (checked : Result (Address × ℕ))
      → Keeps attempts (adopt_attempts m tx attempts checked)
  unfolding adopt_attempts
  Keeps-adopt tx attempts (err e) = search keeps_rules
  Keeps-adopt tx attempts (ok (signer, nonce)) =
      search (scheduling, Keeps-find_receipt, Keeps-judge_known_receipt) depth 12

  Keeps-with_attempts :
      (tx : Transaction) (attempts : List TransactionAttempt)
      → Keeps attempts (with_attempts m tx attempts)
  unfolding with_attempts
  Keeps-with_attempts tx attempts = search (keeps_rules, Keeps-own_sender, Keeps-adopt)

  -- The recovered attempt is durable once its insert has succeeded.
  wrapped_insert :
      (f : Failure → Failure) (a : TransactionAttempt) (o : Result (Unit {0}) × State)
      → (o.0 ≡ ok tt → IsDurable o.1.store a)
      → (u : Unit {0}) → (wrapping f (λ (_ : State). o) o.1).0 ≡ ok u
      → IsDurable (wrapping f (λ (_ : State). o) o.1).1.store a
  unfolding wrapping
  wrapped_insert f a (ok tt, t) durable u h = durable refl
  wrapped_insert f a (err e, t) durable u h = cc

  insert_legacy-IsDurable :
      (f : Failure → Failure) (tx : Transaction) (signed : SignedTx) (time : Time) (s : State)
      → (u : Unit {0})
      → (wrapping f
          (write (λ q. insert_attempt m.hash_hex q (legacy_attempt m tx signed time)))
          s).0
        ≡ ok u
      → IsDurable
          (wrapping f
            (write (λ q. insert_attempt m.hash_hex q (legacy_attempt m tx signed time)))
            s).1.store
          (legacy_attempt m tx signed time)
  unfolding wrapping
  insert_legacy-IsDurable f tx signed time s u h =
      wrapped_insert f (legacy_attempt m tx signed time)
        (write (λ q. insert_attempt m.hash_hex q (legacy_attempt m tx signed time)) s)
        (insert_attempt-IsDurable s m.hash_hex (legacy_attempt m tx signed time) (same_hash signed))
        u h

  Keeps-recover_legacy :
      (tx : Transaction) (signed : SignedTx) → Keeps [] (recover_legacy m tx signed)
  unfolding recover_legacy
  Keeps-recover_legacy tx signed =
      Keeps-bind [] (legacy_time m tx) _ (search (keeps_rules, Keeps-now)) λ time.
        Keeps-bind [] _ _ (checked _) λ _.
          Keeps-bind-known [] _ _ (λ _. legacy_attempt m tx signed time ∷ [])
            (Keeps-wrapping [] _ _ (
              Keeps-insert_attempt [] m.hash_hex (legacy_attempt m tx signed time)
                (same_hash signed)))
            (λ s u v d e. (insert_legacy-IsDurable _ tx signed time s u e, tt))
            (λ _. Keeps-with_attempts _ (legacy_attempt m tx signed time ∷ []))
    where
      checked : (r : Result (Address × ℕ)) → Keeps [] (legacy_checked m r)
      checked (ok r) = search keeps_rules
      checked (err e) = search keeps_rules

All-insert_sorted :
    {A : Type 0} (P : A → Type 0) (cmp : A → A → Ordering) (x : A) (ys : List A)
    → P x
    → All P ys
    → All P (insert_sorted cmp x ys)
unfolding insert_sorted
All-insert_sorted P cmp x [] px h = (px, tt)
All-insert_sorted P cmp x (y ∷ ys) px h = elim (Bool-cases (is_gt (cmp x y))) [
  | inl e ↦ rw e (h.0, All-insert_sorted P cmp x ys px h.1)
  | inr e ↦ rw e (px, (h.0, h.1))
]

pub All-sort_stable :
    {A : Type 0} (P : A → Type 0) (cmp : A → A → Ordering) (xs : List A)
    → All P xs
    → All P (sort_stable cmp xs)
unfolding sort_stable
All-sort_stable P cmp [] h = tt
All-sort_stable P cmp (x ∷ xs) h =
    All-insert_sorted P cmp x (sort_stable cmp xs) h.0 (All-sort_stable P cmp xs h.1)

select_attempts-IsDurable :
    (s : State) (id : Text) → IsValid s → All (IsDurable s.store) (select_attempts s.store id)
unfolding select_attempts
select_attempts-IsDurable s id v =
    All-sort_stable (IsDurable s.store) _ (attempts_of s.store id) (v.stored id)

module _ (m : Manager) where
  Keeps-recover_or_go :
      (tx : Transaction) (attempts : List TransactionAttempt) (stored : Option SignedTx)
      → Keeps attempts (recover_or_go m tx attempts stored)
  unfolding recover_or_go
  Keeps-recover_or_go tx [] (some signed) = Keeps-recover_legacy m tx signed
  Keeps-recover_or_go tx [] none = Keeps-with_attempts m tx []
  Keeps-recover_or_go tx (a ∷ rest) stored = Keeps-with_attempts m tx (a ∷ rest)

  pub Keeps-step : (tx : Transaction) → Keeps [] (process_transaction_step m tx)
  unfolding process_transaction_step gets
  Keeps-step tx = Keeps-if [] _ _ _ (Keeps-fail [] _) (
      Keeps-bind-known [] _ _ (λ attempts. attempts) (Keeps-gets [] _) read
        (λ attempts. Keeps-recover_or_go tx attempts tx.tx))
    where
      read :
          (s : State) (attempts : List TransactionAttempt)
          → IsValid s
          → All (IsDurable s.store) []
          → (gets (λ (t : State). select_attempts t.store tx.id) s).0 ≡ ok attempts
          → All (IsDurable (gets (λ (t : State). select_attempts t.store tx.id) s).1.store) attempts
      read s attempts v d e =
          let same : select_attempts s.store tx.id ≡ attempts = cc in
          subst (All (IsDurable s.store)) same (select_attempts-IsDurable s tx.id v)
