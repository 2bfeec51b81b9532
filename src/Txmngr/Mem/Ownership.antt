-- ===== src/Txmngr/Mem/Ownership.antt =====
-- Who owns a hash and who holds a lane: `InsertAttempt` and `TryLockLane` of
-- evm/txmngr/txmngr_provider/mem/tx.go, each against a second call.
use superform_go_utils.Prelude.{
  ℕ, none, some, Text, text_eq, nat_eq, ◌==◌, if◌then◌else◌, lookup, insert, lookup-insert, ◌≡◌,
  refl, ap, sym, subst, ◌∙◌, arith, Bool-cases, Option-cases, inl, inr, ==_refl, eq-of-==, contains,
}
use superform_go_utils.Txmngr.Types.{Address, Hash, TransactionAttempt}
use superform_go_utils.Txmngr.Mem.{
  Store, insert_attempt, try_lock_lane, lane_key_eq, LaneKey, attempt_hash_conflict_error,
}

insert_attempt-taken :
    (hash_hex : Hash → Text) (s : Store) (a : TransactionAttempt) (owner : Text)
    → lookup a.hash s.hashes ≡ some owner
    → insert_attempt hash_hex s a ≡ (
        if owner == a.transaction_id
        then (none, s)
        else (some (attempt_hash_conflict_error (hash_hex a.hash) owner), s))
unfolding insert_attempt
insert_attempt-taken hash_hex s a owner taken = rw (taken, insert_attempt) refl

insert_attempt-free :
    (hash_hex : Hash → Text) (s : Store) (a : TransactionAttempt)
    → lookup a.hash s.hashes ≡ none
    → (insert_attempt hash_hex s a).1.hashes ≡ insert a.hash a.transaction_id s.hashes
unfolding insert_attempt
insert_attempt-free hash_hex s a free = rw (free, insert_attempt) refl

insert_attempt-owner :
    (hash_hex : Hash → Text) (s : Store) (a : TransactionAttempt)
    → (insert_attempt hash_hex s a).0 ≡ none
    → lookup a.hash (insert_attempt hash_hex s a).1.hashes ≡ some a.transaction_id
insert_attempt-owner hash_hex s a e = elim (Option-cases (lookup a.hash s.hashes)) [
  | inl free ↦
      rw
        (
          insert_attempt-free hash_hex s a free,
          lookup-insert a.hash a.hash a.transaction_id s.hashes,
          ==_refl a.hash,
        )
        refl
  | inr (owner, taken) ↦
      let there = insert_attempt-taken hash_hex s a owner taken in
      elim (Bool-cases (owner == a.transaction_id)) [
        | inl own ↦ rw (there, own) (taken ∙ ap some (eq-of-== owner a.transaction_id own))
        | inr other ↦
            let refused : (insert_attempt hash_hex s a).0
                ≡ some (attempt_hash_conflict_error (hash_hex a.hash) owner) =
              rw (there, other) refl in
            absurd (ground arith)
      ]
]

-- Once an attempt is stored, its hash is owned: storing it again changes nothing, and storing the hash
-- for another transaction is refused and changes nothing.
pub insert_attempt-owned :
    (hash_hex : Hash → Text) (s : Store) (a again : TransactionAttempt)
    → (insert_attempt hash_hex s a).0 ≡ none
    → again.hash ≡ a.hash
    → insert_attempt hash_hex (insert_attempt hash_hex s a).1 again ≡ (
        if a.transaction_id == again.transaction_id
        then (none, (insert_attempt hash_hex s a).1)
        else (
          some (attempt_hash_conflict_error (hash_hex again.hash) a.transaction_id),
          (insert_attempt hash_hex s a).1,
        ))
insert_attempt-owned hash_hex s a again e same =
    let owner : lookup again.hash (insert_attempt hash_hex s a).1.hashes ≡ some a.transaction_id =
      subst (λ h. lookup h (insert_attempt hash_hex s a).1.hashes ≡ some a.transaction_id)
        (sym same) (insert_attempt-owner hash_hex s a e) in
    insert_attempt-taken hash_hex (insert_attempt hash_hex s a).1 again a.transaction_id owner

-- A lane has one holder: right after a call that tried to lock it, whether it got the lock or not, a
-- second call gets none and changes nothing.
pub try_lock_lane-excludes :
    (s : Store) (sender : Address) (chain_id : ℕ)
    → try_lock_lane (try_lock_lane s sender chain_id).1 sender chain_id
      ≡ (none, (try_lock_lane s sender chain_id).1)
unfolding try_lock_lane
try_lock_lane-excludes s sender chain_id =
    let key : LaneKey = record { lane_sender = sender; lane_chain = chain_id } in
    elim (Bool-cases (contains s.lane_locks key)) [
      | inl held ↦ rw (held, held) refl
      | inr free ↦ rw (free, ==_refl key) refl
    ]
