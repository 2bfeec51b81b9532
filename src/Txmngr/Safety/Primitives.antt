-- ===== src/Txmngr/Safety/Primitives.antt =====
-- The writes of evm/txmngr/txmngr_provider/mem/tx.go that a pass makes extend the durable state.
use mathlib.Core.List.{append-nil}
use superform_go_utils.Prelude.{
  ℕ, List, [], ◌∷◌, ◌++◌, Option, none, some, Text, text_eq, nat_eq, false, ◌≡◌, refl, sym, ◌∙◌, ap,
  subst, arith, lookup, insert, lookup-insert, All, if◌then◌else◌, ◌==◌, Bool-cases, Option-cases,
  inl, inr, Assoc,
}
use superform_go_utils.Txmngr.Types.{Hash, SignedTx, Transaction, TransactionAttempt, is_completed}
use superform_go_utils.Txmngr.Mem.{Store, attempts_of, update_if_active, insert_attempt}
use superform_go_utils.Txmngr.Action.{
  State, ok, Effect, result_observed, barrier_observed, write, emit, record_send,
}
use superform_go_utils.Txmngr.Safety.Durable.{
  HasHash-from, IsDurable, EffectOwned, IsValid, Extends,
}
use superform_go_utils.Txmngr.Safety.Keeps.{
  Keeps, Extends-refl, All-IsDurable-stable, All-owned-stable,
}

-- A row that is not completed may be replaced.
replace_row :
    (s : Store) (tx current : Transaction)
    → lookup tx.id s.txs ≡ some current
    → is_completed current ≡ false
    → Extends s (record s { txs = insert tx.id tx s.txs })
unfolding attempts_of
replace_row s tx current found active = record {
  settled = λ id row h c. ground (
    arith,
    text_eq.same_iff tx.id id,
    lookup-insert tx.id id tx s.txs,
    ap (λ k. lookup k s.txs) {x = tx.id} {y = id},
  );
  kept = λ id row h. replaced id row h;
  owners = λ hash id h. h;
  appended = λ id. ([], sym (append-nil (attempts_of s id)));
  locks = refl;
}
  where
    replaced :
        (id : Text) (row : Transaction)
        → lookup id s.txs ≡ some row
        → (row' : Transaction) × (lookup id (insert tx.id tx s.txs) ≡ some row')
    replaced id row h = elim (Bool-cases (tx.id == id)) [
      | inl e ↦ (tx, lookup-insert tx.id id tx s.txs ∙ (rw e))
      | inr e ↦ (row, lookup-insert tx.id id tx s.txs ∙ (rw e h))
    ]

-- A change of the rows alone keeps what is said of attempts and of the trace.
IsValid-with_rows :
    (s : State) (rows : Assoc Text Transaction)
    → Extends s.store (record s.store { txs = rows })
    → IsValid s
    → IsValid (record s { store = record s.store { txs = rows } })
unfolding attempts_of
IsValid-with_rows s rows h v = record {
  stored = λ id.
      All-IsDurable-stable s.store (record s.store { txs = rows }) (attempts_of s.store id) h
        (v.stored id);
  broadcast = All-owned-stable s.store (record s.store { txs = rows }) s.trace h v.broadcast;
}

pub Keeps-update_if_active :
    (xs : List TransactionAttempt) (tx : Transaction)
    → Keeps xs (write (λ q. update_if_active q tx))
unfolding write update_if_active
Keeps-update_if_active xs tx = record {
  at = λ s v d. elim (Option-cases (lookup tx.id s.store.txs)) [
    | inl e ↦ rw (e, update_if_active) (Extends-refl s.store, v)
    | inr (current, e) ↦ elim (Bool-cases (is_completed current)) [
      | inl c ↦ rw (e, update_if_active) (rw c (Extends-refl s.store, v))
      | inr c ↦
          rw (e, update_if_active)
            (rw c (
              let h = replace_row s.store tx current e c in
              (h, IsValid-with_rows s (insert tx.id tx s.store.txs) h v)))
    ]
  ];
}

pub Keeps-emit :
    (xs : List TransactionAttempt) (e : Effect)
    → ((s : State) → All (IsDurable s.store) xs → EffectOwned s.store e)
    → Keeps xs (emit e)
unfolding emit
Keeps-emit xs e owned = record {
  at = λ s v d.
      (Extends-refl s.store, record { stored = v.stored; broadcast = (owned s d, v.broadcast) });
}

-- A transaction may be sent that the queue owns.
pub Keeps-record_send :
    (xs : List TransactionAttempt) (chain_id : ℕ) (signed : SignedTx) (id : Text)
    → ((s : State) → All (IsDurable s.store) xs → lookup signed.hash s.store.hashes ≡ some id)
    → Keeps xs (record_send chain_id signed)
unfolding record_send
Keeps-record_send xs chain_id signed id owned = record {
  at = λ s v d. (
    Extends-refl s.store,
    record { stored = v.stored; broadcast = ((id, owned s d, owned s d), v.broadcast) },
  );
}

pub All-append :
    {A : Type 0} (P : A → Type 0) (xs ys : List A) → All P xs → All P ys → All P (xs ++ ys)
All-append P [] ys hx hy = hy
All-append P (x ∷ xs) ys hx hy = (hx.0, All-append P xs ys hx.1 hy)

-- A new attempt under a fresh hash.
abbrev with_attempt : Store → TransactionAttempt → Store
with_attempt s a = record s {
  hashes = insert a.hash a.transaction_id s.hashes;
  attempts = insert a.transaction_id (attempts_of s a.transaction_id ++ a ∷ []) s.attempts;
}

attempts-with_attempt :
    (s : Store) (a : TransactionAttempt) (id : Text)
    → attempts_of (with_attempt s a) id ≡ (
        if a.transaction_id == id
        then attempts_of s a.transaction_id ++ a ∷ []
        else attempts_of s id)
unfolding attempts_of
attempts-with_attempt s a id =
    ground (
      arith,
      lookup-insert a.transaction_id id (attempts_of s a.transaction_id ++ a ∷ []) s.attempts,
    )

add_attempt :
    (s : Store) (a : TransactionAttempt)
    → lookup a.hash s.hashes ≡ none
    → Extends s (with_attempt s a)
add_attempt s a fresh = record {
  settled = λ id row h c. h;
  kept = λ id row h. (row, h);
  owners = λ hash id h. ground (
    arith,
    nat_eq.same_iff a.hash hash,
    lookup-insert a.hash hash a.transaction_id s.hashes,
    ap (λ k. lookup k s.hashes) {x = a.hash} {y = hash},
  );
  appended = λ id. elim (Bool-cases (a.transaction_id == id)) [
    | inl e ↦ (
      a ∷ [],
      attempts-with_attempt s a id
          ∙ (rw e)
          ∙ ap (λ k. attempts_of s k ++ a ∷ []) ((text_eq.same_iff a.transaction_id id).0 e),
    )
    | inr e ↦ ([], attempts-with_attempt s a id ∙ (rw e (sym (append-nil (attempts_of s id)))))
  ];
  locks = refl;
}

All-at_equal : {A : Type 0} (P : A → Type 0) (xs ys : List A) → xs ≡ ys → All P ys → All P xs
All-at_equal P xs ys e h = subst (All P) (sym e) h

IsValid-with_attempt :
    (s : State) (a : TransactionAttempt)
    → lookup a.hash s.store.hashes ≡ none
    → ((signed : SignedTx) → a.tx ≡ some signed → signed.hash ≡ a.hash)
    → IsValid s
    → IsValid (record s { store = with_attempt s.store a })
IsValid-with_attempt s a fresh matches v = record {
  stored = λ id. elim (Bool-cases (a.transaction_id == id)) [
    | inl e ↦
        All-at_equal (IsDurable t) (attempts_of t id)
          (attempts_of s.store a.transaction_id ++ a ∷ [])
          (attempts-with_attempt s.store a id ∙ (rw e))
          (All-append (IsDurable t) (attempts_of s.store a.transaction_id) (a ∷ [])
            (All-IsDurable-stable s.store t (attempts_of s.store a.transaction_id) h
              (v.stored a.transaction_id))
            (own, tt))
    | inr e ↦
        All-at_equal (IsDurable t) (attempts_of t id) (attempts_of s.store id)
          (attempts-with_attempt s.store a id ∙ (rw e))
          (All-IsDurable-stable s.store t (attempts_of s.store id) h (v.stored id))
  ];
  broadcast = All-owned-stable s.store t s.trace h v.broadcast;
}
  where
    t : Store
    t = with_attempt s.store a

    h : Extends s.store t
    h = add_attempt s.store a fresh

    own : IsDurable t a
    own = record {
      owned =
          lookup-insert a.hash a.hash a.transaction_id s.store.hashes
          ∙ (rw ((nat_eq.same_iff a.hash a.hash).1 refl));
      matches = HasHash-from a.tx a.hash matches;
    }

-- A stored attempt that matches its envelope: the queue stays valid whatever `insert_attempt` says.
pub Keeps-insert_attempt :
    (xs : List TransactionAttempt) (hash_hex : Hash → Text) (a : TransactionAttempt)
    → ((signed : SignedTx) → a.tx ≡ some signed → signed.hash ≡ a.hash)
    → Keeps xs (write (λ q. insert_attempt hash_hex q a))
unfolding write insert_attempt
Keeps-insert_attempt xs hash_hex a matches = record {
  at = λ s v d. elim (Option-cases (lookup a.hash s.store.hashes)) [
    | inl e ↦ rw (e, insert_attempt) (add_attempt s.store a e, IsValid-with_attempt s a e matches v)
    | inr (owner, e) ↦ elim (Bool-cases (owner == a.transaction_id)) [
      | inl c ↦ rw (e, insert_attempt) (rw c (Extends-refl s.store, v))
      | inr c ↦ rw (e, insert_attempt) (rw c (Extends-refl s.store, v))
    ]
  ];
}

-- After a successful insert the attempt is durable.
pub insert_attempt-IsDurable :
    (s : State) (hash_hex : Hash → Text) (a : TransactionAttempt)
    → ((signed : SignedTx) → a.tx ≡ some signed → signed.hash ≡ a.hash)
    → (write (λ q. insert_attempt hash_hex q a) s).0 ≡ ok tt
    → IsDurable (write (λ q. insert_attempt hash_hex q a) s).1.store a
unfolding write insert_attempt
insert_attempt-IsDurable s hash_hex a matches done = record {
  owned = ground (
    arith,
    text_eq.same_iff (owner_of (lookup a.hash s.store.hashes)) a.transaction_id,
    lookup-insert a.hash a.hash a.transaction_id s.store.hashes,
    (nat_eq.same_iff a.hash a.hash).1 refl,
  );
  matches = HasHash-from a.tx a.hash matches;
}
  where
    owner_of : Option Text → Text
    owner_of none = []
    owner_of (some owner) = owner

pub Keeps-result_observed :
    (xs : List TransactionAttempt) (chain_id : ℕ) (status : Text)
    → Keeps xs (emit (result_observed chain_id status))
Keeps-result_observed xs chain_id status =
    Keeps-emit xs (result_observed chain_id status) (λ s d. tt)

pub Keeps-barrier_observed :
    (xs : List TransactionAttempt) (chain_id : ℕ) (reason : Text)
    → Keeps xs (emit (barrier_observed chain_id reason))
Keeps-barrier_observed xs chain_id reason =
    Keeps-emit xs (barrier_observed chain_id reason) (λ s d. tt)
