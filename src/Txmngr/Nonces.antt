-- ===== src/Txmngr/Nonces.antt =====
-- A row that keeps its nonce: evm/txmngr/txmngr.go gives a nonce back only from the tip of the lane.
-- One rule for each way to build an action; the children follow the methods of the manager.
pub mod Signing
pub mod Scheduling
pub mod Sending
pub mod Assigning
pub mod Stepping
use superform_go_utils.Prelude.{
  ℕ, ◌+◌, ◌<◌, Text, text_eq, nat_eq, Option, none, some, Bool, true, false, ◌≡◌, refl, sym, subst,
  arith, Bool-cases, Option-cases, inl, inr, lookup, lookup-insert, ==_refl, ◌==◌, if◌then◌else◌,
}
use superform_go_utils.Txmngr.Types.{Hash, SignedTx, Transaction, TransactionAttempt, is_completed}
use superform_go_utils.Txmngr.Errors.{Failure}
use superform_go_utils.Txmngr.Lane.{NonceLane, observe, is_tip, u64}
use superform_go_utils.Txmngr.Mem.{Store, update_if_active, insert_attempt}
use superform_go_utils.Txmngr.Action.{
  Action, State, Result, ok, err, Effect, pure, fail, ask, gets, lift, try, wrapping, write, emit,
  record_send, update_lane, ◌>>=◌,
}

-- The row of an id has an assigned nonce.
abbrev pub HasNonce : Text → Store → Type 0
HasNonce id s =
    (row : Transaction) × (n : ℕ) × (lookup id s.txs ≡ some row) × (row.assigned_nonce ≡ some n)

-- The lane gives higher nonces than the one after this.
abbrev pub Past : ℕ → NonceLane → Type 0
Past n l = (l.known ≡ true) × (u64 (n + 1) < l.next)

-- The row is that of the id, with the nonce.
abbrev pub Named : Text → ℕ → Transaction → Type 0
Named id n tx = (tx.id ≡ id) × (tx.assigned_nonce ≡ some n)

pub Past-is_tip : (n : ℕ) (l : NonceLane) → Past n l → is_tip l n ≡ false
unfolding is_tip
Past-is_tip n l (known, past) = ground (arith, known, past)

Past-observe : (n k : ℕ) (l : NonceLane) → Past n l → Past n (observe l k)
unfolding observe
Past-observe n k l (known, past) = ground (arith, known, past)

module _ (id : Text) (n : ℕ) where
  -- From a state in which the row has a nonce and the lane is past this one, the action keeps both.
  pub record Retains {A : Type 0} (m : Action A) : Type 0 where
    pub at :
        (s : State)
        → HasNonce id s.store
        → Past n s.lane
        → HasNonce id (m s).1.store × Past n (m s).1.lane

  module _ {A : Type 0} where
    pub Retains-pure : (a : A) → Retains (pure a)
    unfolding pure
    Retains-pure a = record { at = λ s h p. (h, p) }

    pub Retains-fail : (e : Failure) → Retains (fail {A = A} e)
    unfolding fail
    Retains-fail e = record { at = λ s h p. (h, p) }

    pub Retains-lift : (r : Result A) → Retains (lift r)
    unfolding lift
    Retains-lift r = record { at = λ s h p. (h, p) }

    pub Retains-gets : (f : State → A) → Retains (gets f)
    unfolding gets
    Retains-gets f = record { at = λ s h p. (h, p) }

    pub Retains-ask : (f : ℕ → A) → Retains (ask f)
    unfolding ask
    Retains-ask f = record { at = λ s h p. (h, p) }

    pub Retains-try : (m : Action A) → Retains m → Retains (try m)
    unfolding try
    Retains-try m k = record { at = k.at }

    renamed-Retains :
        (f : Failure → Failure) (s : State) (o : Result A × State)
        → HasNonce id o.1.store × Past n o.1.lane
        → HasNonce id (wrapping f (λ _. o) s).1.store × Past n (wrapping f (λ _. o) s).1.lane
    unfolding wrapping
    renamed-Retains f s (ok a, t) h = h
    renamed-Retains f s (err e, t) h = h

    pub Retains-wrapping :
        (f : Failure → Failure) (m : Action A) → Retains m → Retains (wrapping f m)
    unfolding wrapping
    Retains-wrapping f m k = record { at = λ s h p. renamed-Retains f s (m s) (k.at s h p) }

    pub Retains-if :
        (b : Bool) (m m' : Action A) → Retains m → Retains m' → Retains (if b then m else m')
    Retains-if true m m' k k' = k
    Retains-if false m m' k k' = k'

    pub Retains-unless :
        (b : Bool) (m m' : Action A) → b ≡ false → Retains m' → Retains (if b then m else m')
    Retains-unless b m m' e k = subst (λ c. Retains (if c then m else m')) (sym e) k

  module _ {A B : Type 0} where
    continue-Retains :
        (f : A → Action B) (s : State) (o : Result A × State)
        → HasNonce id o.1.store × Past n o.1.lane
        → ((a : A) → Retains (f a))
        → HasNonce id (◌>>=◌ (λ _. o) f s).1.store × Past n (◌>>=◌ (λ _. o) f s).1.lane
    unfolding ◌>>=◌
    continue-Retains f s (ok a, t) h k = (k a).at t h.0 h.1
    continue-Retains f s (err e, t) h k = h

    pub Retains-bind :
        (m : Action A) (f : A → Action B)
        → Retains m
        → ((a : A) → Retains (f a))
        → Retains (m >>= f)
    unfolding ◌>>=◌
    Retains-bind m f km kf = record { at = λ s h p. continue-Retains f s (m s) (km.at s h p) kf }

    -- What is read of a lane that is past the nonce.
    pub Retains-read :
        (g : State → A) (f : A → Action B)
        → ((s : State) → Past n s.lane → Retains (f (g s)))
        → Retains (gets g >>= f)
    unfolding ◌>>=◌ gets
    Retains-read g f k = record { at = λ s h p. (k s p).at s h p }

  pub Retains-emit : (e : Effect) → Retains (emit e)
  unfolding emit
  Retains-emit e = record { at = λ s h p. (h, p) }

  pub Retains-record_send :
      (chain_id : ℕ) (signed : SignedTx) → Retains (record_send chain_id signed)
  unfolding record_send
  Retains-record_send chain_id signed = record { at = λ s h p. (h, p) }

  pub Retains-observe : (k : ℕ) → Retains (update_lane (λ l. observe l k))
  unfolding update_lane
  Retains-observe k = record { at = λ s h p. (h, Past-observe n k s.lane p) }

  update_if_active-HasNonce :
      (k : ℕ) (s : Store) (row : Transaction)
      → Named id k row
      → HasNonce id s
      → HasNonce id (update_if_active s row).1
  unfolding update_if_active
  update_if_active-HasNonce k s row (same, named) held =
      subst (λ i. HasNonce i (update_if_active s row).1) same
        (kept (subst (λ i. HasNonce i s) (sym same) held))
    where
      kept : HasNonce row.id s → HasNonce row.id (update_if_active s row).1
      kept (old, j, found, set) = elim (Bool-cases (is_completed old)) [
        | inl done ↦ rw (found, done, update_if_active) (old, j, found, set)
        | inr active ↦
            rw
              (
                found,
                active,
                update_if_active,
                lookup-insert row.id row.id row s.txs,
                ==_refl row.id,
              )
              (row, k, refl, named)
      ]

  written-Retains :
      (s : State) (o : Option Failure × Store)
      → HasNonce id o.1
      → Past n s.lane
      → HasNonce id (write (λ _. o) s).1.store × Past n (write (λ _. o) s).1.lane
  unfolding write
  written-Retains s (none, t) h p = (h, p)
  written-Retains s (some e, t) h p = (h, p)

  pub Retains-update :
      (k : ℕ) (row : Transaction) → Named id k row → Retains (write (λ q. update_if_active q row))
  unfolding write
  Retains-update k row named = record {
    at = λ s h p.
        written-Retains s (update_if_active s.store row)
          (update_if_active-HasNonce k s.store row named h) p;
  }

  insert_attempt-HasNonce :
      (hash_hex : Hash → Text) (s : Store) (a : TransactionAttempt)
      → HasNonce id s
      → HasNonce id (insert_attempt hash_hex s a).1
  unfolding insert_attempt
  insert_attempt-HasNonce hash_hex s a h = elim (Option-cases (lookup a.hash s.hashes)) [
    | inl fresh ↦ rw (fresh, insert_attempt) h
    | inr (owner, found) ↦ elim (Bool-cases (owner == a.transaction_id)) [
      | inl e ↦ rw (found, insert_attempt) (rw e h)
      | inr e ↦ rw (found, insert_attempt) (rw e h)
    ]
  ]

  pub Retains-insert :
      (hash_hex : Hash → Text) (a : TransactionAttempt)
      → Retains (write (λ q. insert_attempt hash_hex q a))
  unfolding write
  Retains-insert hash_hex a = record {
    at = λ s h p.
        written-Retains s (insert_attempt hash_hex s.store a)
          (insert_attempt-HasNonce hash_hex s.store a h) p;
  }

  pub ruleset retaining = (
    Retains-pure, Retains-fail, Retains-lift, Retains-gets, Retains-ask, Retains-try,
    Retains-wrapping, Retains-if, Retains-bind, Retains-emit,
  )
