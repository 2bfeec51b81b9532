-- ===== src/Txmngr/Mem/Operations.antt =====
-- Repeated insertions with one operation key: `InsertOrGet` of
-- evm/txmngr/txmngr_provider/mem/tx.go.
use superform_go_utils.Prelude.{
  true, false, [], ◌∷◌, Option, none, some, Text, text_eq, text_beq, nat_eq, ◌==◌, Assoc, insert,
  ◌≡◌, refl, ap, sym, subst, ◌∙◌, arith, Bool-cases, Option-cases, inl, inr, ==_refl, eq-of-==,
}
use superform_go_utils.Txmngr.Types.{Transaction}
use superform_go_utils.Txmngr.Errors.{Failure, idempotency_conflict, sentinel}
use superform_go_utils.Txmngr.Mem.{
  Store, stored, conflict, insert_or_get, insert_or_existing, insert_new, insert_tx, find_operation,
  lane_key_eq, differ,
}

differ_refl : (t : Text) → differ (some t) (some t) ≡ false
differ_refl t = rw (==_refl t) refl

find_operation-insert :
    (key : Text) (tx : Transaction) (txs : Assoc Text Transaction)
    → tx.operation_key ≡ some key
    → find_operation key txs ≡ none
    → find_operation key (insert tx.id tx txs) ≡ some tx
unfolding find_operation insert
find_operation-insert key tx [] named absent = rw (named, differ_refl key) refl
find_operation-insert key tx ((id, row) ∷ rest) named absent =
    elim (Bool-cases (differ row.operation_key (some key))) [
      | inl e ↦
          let later : find_operation key rest ≡ none = ground arith in
          elim (Bool-cases (text_beq id tx.id)) [
            | inl same ↦ rw (same, named, differ_refl key) refl
            | inr apart ↦ rw (apart, e) (find_operation-insert key tx rest named later)
          ]
      | inr e ↦ absurd (ground arith)
    ]

differ-eq : (o : Option Text) (t : Text) → differ o (some t) ≡ false → o ≡ some t
differ-eq none t h = cc
differ-eq (some a) t h = ground (arith, eq-of-== a t)

insert_or_get-found :
    (s : Store) (retry existing : Transaction) (key digest : Text)
    → retry.operation_key ≡ some key
    → retry.payload_hash ≡ some digest
    → find_operation key s.txs ≡ some existing
    → existing.payload_hash ≡ some digest
    → insert_or_get s retry ≡ (stored existing, s)
unfolding insert_or_get insert_or_existing
insert_or_get-found s retry existing key digest k d found d' =
    rw (k, found, d', d, differ_refl digest) refl

insert_or_get-again :
    (s t : Store) (tx retry row existing : Transaction)
    → insert_or_get s tx ≡ (stored existing, t)
    → insert_or_get t retry ≡ (stored existing, t)
    → (insert_or_get s tx).0 ≡ stored row
    → insert_or_get (insert_or_get s tx).1 retry ≡ (stored row, (insert_or_get s tx).1)
insert_or_get-again s t tx retry row existing first second =
    subst (λ r. r.0 ≡ stored row → insert_or_get r.1 retry ≡ (stored row, r.1)) (sym first)
      (λ e. second ∙ ap (λ x. (x, t)) e)

insert_or_get-fresh :
    (s : Store) (tx : Transaction) (key : Text)
    → tx.operation_key ≡ some key
    → find_operation key s.txs ≡ none
    → insert_or_get s tx ≡ (stored tx, insert_tx s tx)
unfolding insert_or_get insert_or_existing insert_new
insert_or_get-fresh s tx key k absent = rw (k, absent) refl

find_operation-insert_tx :
    (s : Store) (tx : Transaction) (key : Text)
    → tx.operation_key ≡ some key
    → find_operation key s.txs ≡ none
    → find_operation key (insert_tx s tx).txs ≡ some tx
unfolding insert_tx
find_operation-insert_tx s tx key k absent = find_operation-insert key tx s.txs k absent

insert_or_get-apart :
    (s : Store) (tx existing : Transaction) (key digest : Text)
    → tx.operation_key ≡ some key
    → tx.payload_hash ≡ some digest
    → find_operation key s.txs ≡ some existing
    → differ existing.payload_hash (some digest) ≡ true
    → (insert_or_get s tx).0 ≡ conflict (sentinel idempotency_conflict)
unfolding insert_or_get insert_or_existing
insert_or_get-apart s tx existing key digest k d found apart = rw (k, found, d, apart) refl

conflict-stored : {e : Failure} {row : Transaction} → ¬ (conflict e ≡ stored row)
conflict-stored h = ground arith

-- A stored row that is returned for a payload has that payload.
insert_or_get-payload :
    (s : Store) (tx existing row : Transaction) (key digest : Text)
    → tx.operation_key ≡ some key
    → tx.payload_hash ≡ some digest
    → find_operation key s.txs ≡ some existing
    → (insert_or_get s tx).0 ≡ stored row
    → existing.payload_hash ≡ some digest
insert_or_get-payload s tx existing row key digest k d found e =
    elim (Bool-cases (differ existing.payload_hash (some digest))) [
      | inl apart ↦
          absurd (
            conflict-stored
              (sym (insert_or_get-apart s tx existing key digest k d found apart) ∙ e))
      | inr same ↦ differ-eq existing.payload_hash digest same
    ]

-- The retry of an operation: once a row with an operation key is stored, or found stored, a second
-- insertion with that key and that payload returns the same row and changes nothing.
pub insert_or_get-replays :
    (s : Store) (tx retry row : Transaction) (key digest : Text)
    → tx.operation_key ≡ some key
    → tx.payload_hash ≡ some digest
    → retry.operation_key ≡ some key
    → retry.payload_hash ≡ some digest
    → (insert_or_get s tx).0 ≡ stored row
    → insert_or_get (insert_or_get s tx).1 retry ≡ (stored row, (insert_or_get s tx).1)
insert_or_get-replays s tx retry row key digest k d k' d' e =
    elim (Option-cases (find_operation key s.txs)) [
      | inl absent ↦
          insert_or_get-again s (insert_tx s tx) tx retry row tx
            (insert_or_get-fresh s tx key k absent)
            (insert_or_get-found (insert_tx s tx) retry tx key digest k' d'
              (find_operation-insert_tx s tx key k absent) d)
            e
      | inr (existing, found) ↦
          let owed = insert_or_get-payload s tx existing row key digest k d found e in
          insert_or_get-again s s tx retry row existing
            (insert_or_get-found s tx existing key digest k d found owed)
            (insert_or_get-found s retry existing key digest k' d' found owed) e
    ]

-- A second insertion with the key of a stored row but another payload is refused as a conflict, and
-- changes nothing.
pub insert_or_get-refuses :
    (s : Store) (tx existing : Transaction) (key digest other : Text)
    → tx.operation_key ≡ some key
    → tx.payload_hash ≡ some digest
    → find_operation key s.txs ≡ some existing
    → existing.payload_hash ≡ some other
    → (other == digest) ≡ false
    → insert_or_get s tx ≡ (conflict (sentinel idempotency_conflict), s)
unfolding insert_or_get insert_or_existing
insert_or_get-refuses s tx existing key digest other k d found o apart =
    rw (k, found, o, d, apart) refl
