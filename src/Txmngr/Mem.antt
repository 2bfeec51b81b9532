-- ===== src/Txmngr/Mem.antt =====
-- The in-memory queue: evm/txmngr/txmngr_provider/mem/tx.go. A method takes the shared state and
-- returns the new one; the mutex makes each method one step. `hash_hex` renders a hash.
pub mod Selects
pub mod Operations
pub mod Ownership
pub mod Acknowledgement
pub mod Query
use Prim.Native.Nat.{Ordering}
use superform_go_utils.Prelude.{
  ℕ, suc, ◌+◌, Bool, true, false, ◌&&◌, ◌||◌, not, List, [], ◌∷◌, ◌++◌, Option, none, some, Text,
  text_eq, nat_eq, ◌==◌, Eq, ltb, if◌then◌else◌, Assoc, lookup, insert, contains, filterb, is_none,
  compare, compare_text, ◌≡◌, ◌↔◌, arith, nat_beq_iff, nat_beq,
}
use superform_go_utils.Prelude.Sort.{sort_stable, then_by}
use superform_go_utils.Txmngr.Types.{
  Address, Hash, Transaction, TransactionAttempt, TxStatus, status_eq, is_completed,
}
use superform_go_utils.Txmngr.Errors.{
  Failure, Sentinel, idempotency_conflict, attempt_hash_conflict, stale_transaction, no_rows,
  sentinel, sentinel_text, errorf,
}

-- The key of a lane: the source joins the sender's hex and the chain's decimal by a colon.
pub record LaneKey : Type 0 where
  pub lane_sender : Address
  pub lane_chain : ℕ

unfoldable pub lane_key_beq : LaneKey → LaneKey → Bool
lane_key_beq a b = nat_beq a.lane_sender b.lane_sender && nat_beq a.lane_chain b.lane_chain

lane_key_ext : (a b : LaneKey) → a.lane_sender ≡ b.lane_sender → a.lane_chain ≡ b.lane_chain → a ≡ b
lane_key_ext a b p q = λ i. record { lane_sender = p i; lane_chain = q i }

pub lane_key_beq_iff : (a b : LaneKey) → (lane_key_beq a b ≡ true) ↔ (a ≡ b)
unfolding lane_key_beq
lane_key_beq_iff a b = ((λ h. lane_key_ext a b (ground arith) (ground arith)), (λ h. ground arith))

instance abbrev pub lane_key_eq : Eq LaneKey
lane_key_eq = record { same = lane_key_beq; same_iff = lane_key_beq_iff }

pub record Store : Type 0 where
  pub txs : Assoc Text Transaction
  pub attempts : Assoc Text (List TransactionAttempt)
  pub hashes : Assoc Hash Text
  pub lane_locks : List LaneKey

unfoldable pub new_transactions_q : Assoc Text Transaction → Store
new_transactions_q txs = record { txs = txs; attempts = []; hashes = []; lane_locks = [] }

unfoldable pub insert_tx : Store → Transaction → Store
insert_tx s tx = record s { txs = insert tx.id tx s.txs }

-- `*a != *b`, or one of the two pointers is nil.
abbrev pub differ : Option Text → Option Text → Bool
differ none b = true
differ (some a) none = true
differ (some a) (some b) = not (a == b)

-- The loop of `InsertOrGet`: the first row that has the operation key.
unfoldable pub find_operation : Text → Assoc Text Transaction → Option Transaction
find_operation key [] = none
find_operation key ((id, tx) ∷ rest) =
    if differ tx.operation_key (some key) then find_operation key rest else some tx

pub data Stored : Type 0 where
  conflict : Failure → Stored
  stored : Transaction → Stored

abbrev pub existing_or_conflict : Transaction → Transaction → Stored
existing_or_conflict existing tx =
    if differ existing.payload_hash tx.payload_hash
    then conflict (sentinel idempotency_conflict)
    else stored existing

unfoldable pub insert_new : Store → Transaction → Stored × Store
unfolding insert_tx
insert_new s tx = (stored tx, insert_tx s tx)

unfoldable pub insert_or_existing : Store → Transaction → Option Transaction → Stored × Store
unfolding insert_new
insert_or_existing s tx none = insert_new s tx
insert_or_existing s tx (some existing) = (existing_or_conflict existing tx, s)

unfoldable pub insert_or_get : Store → Transaction → Stored × Store
unfolding insert_or_existing
insert_or_get s tx = elim tx.operation_key [
  | none ↦ insert_new s tx
  | some key ↦ insert_or_existing s tx (find_operation key s.txs)
]

unfoldable pub attempt_hash_conflict_error : Text → Text → Failure
attempt_hash_conflict_error hash owner =
    errorf "%w: hash %s belongs to transaction %s"
      (sentinel_text attempt_hash_conflict ∷ hash ∷ owner ∷ []) (attempt_hash_conflict ∷ [])

abbrev pub or_empty {ℓ} : {A : Type ℓ} → Option (List A) → List A
or_empty none = []
or_empty (some xs) = xs

unfoldable pub attempts_of : Store → Text → List TransactionAttempt
attempts_of s id = or_empty (lookup id s.attempts)

-- An error, or `none` for nil.
unfoldable pub insert_attempt : (Hash → Text) → Store → TransactionAttempt → Option Failure × Store
insert_attempt hash_hex s attempt = elim (lookup attempt.hash s.hashes) [
  | some owner ↦
      if owner == attempt.transaction_id
      then (none, s)
      else (some (attempt_hash_conflict_error (hash_hex attempt.hash) owner), s)
  | none ↦ (
    none,
    record s {
      hashes = insert attempt.hash attempt.transaction_id s.hashes;
      attempts =
          insert attempt.transaction_id (attempts_of s attempt.transaction_id ++ attempt ∷ [])
            s.attempts;
    },
  )
]

unfoldable pub update_if_active : Store → Transaction → Option Failure × Store
update_if_active s tx = elim (lookup tx.id s.txs) [
  | none ↦ (some (sentinel stale_transaction), s)
  | some current ↦
      if is_completed current
      then (some (sentinel stale_transaction), s)
      else (none, record s { txs = insert tx.id tx s.txs })
]

-- The fields that a notification result may change.
unfoldable pub with_notification : Transaction → Transaction → Transaction
with_notification current tx = record current {
  notified_at = tx.notified_at;
  notification_attempts = tx.notification_attempts;
  next_notification_at = tx.next_notification_at;
  notification_error = tx.notification_error;
  updated_at = tx.updated_at;
}

unfoldable pub update_notification : Store → Transaction → Option Failure × Store
unfolding with_notification
update_notification s tx = elim (lookup tx.id s.txs) [
  | none ↦ (some (sentinel stale_transaction), s)
  | some current ↦
      if not (is_completed current) || not (is_none current.notified_at)
      then (some (sentinel stale_transaction), s)
      else (none, record s { txs = insert tx.id (with_notification current tx) s.txs })
]

unfoldable pub select_attempts : Store → Text → List TransactionAttempt
select_attempts s id = sort_stable (λ a b. compare a.created_at b.created_at) (attempts_of s id)

-- The candidates for a nonce among the rows of a chain, in the order of the map.
unfoldable pub attempts_by_nonce :
    Assoc Text Transaction → ℕ → ℕ → Assoc Text (List TransactionAttempt) → List TransactionAttempt
attempts_by_nonce txs chain_id nonce [] = []
attempts_by_nonce txs chain_id nonce ((id, candidates) ∷ rest) =
    let others = attempts_by_nonce txs chain_id nonce rest in
    elim (lookup id txs) [
      | none ↦ others
      | some owner ↦
          if owner.chain_id == chain_id
          then filterb (λ c. c.nonce == nonce) candidates ++ others
          else others
    ]

unfoldable pub select_attempts_by_nonce : (Hash → Text) → Store → ℕ → ℕ → List TransactionAttempt
select_attempts_by_nonce hash_hex s chain_id nonce =
    sort_stable
      (λ a b.
        then_by (compare a.created_at b.created_at)
          (compare_text (hash_hex a.hash) (hash_hex b.hash)))
      (attempts_by_nonce s.txs chain_id nonce s.attempts)

abbrev or_zero : Option ℕ → ℕ
or_zero none = 0
or_zero (some n) = n

-- The loop of `CountByChain`.
unfoldable pub count_rows : List TxStatus → Assoc Text Transaction → Assoc ℕ ℕ → Assoc ℕ ℕ
count_rows statuses [] counts = counts
count_rows statuses ((id, tx) ∷ rest) counts = count_rows statuses rest (
    if contains statuses tx.status
    then insert tx.chain_id (or_zero (lookup tx.chain_id counts) + 1) counts
    else counts)

-- `CountByChain` under a context that is not cancelled.
unfoldable pub count_by_chain : Store → List TxStatus → Assoc ℕ ℕ
count_by_chain s statuses = count_rows statuses s.txs []

abbrev pub higher : Option ℕ → ℕ → Option ℕ
higher none nonce = some nonce
higher (some best) nonce = if ltb best nonce then some nonce else some best

-- One row of the loop of `MaxAssignedNonce`.
unfoldable pub raise_max : Address → ℕ → Transaction → Option ℕ → Option ℕ
raise_max sender chain_id tx best = elim tx.assigned_nonce [
  | none ↦ best
  | some nonce ↦ if tx.sender == sender && tx.chain_id == chain_id then higher best nonce else best
]

unfoldable pub max_nonce_from : Address → ℕ → Assoc Text Transaction → Option ℕ → Option ℕ
max_nonce_from sender chain_id [] best = best
max_nonce_from sender chain_id ((id, tx) ∷ rest) best =
    max_nonce_from sender chain_id rest (raise_max sender chain_id tx best)

-- `none` stands for `found == false`.
unfoldable pub max_assigned_nonce : Store → Address → ℕ → Option ℕ
unfolding max_nonce_from raise_max
max_assigned_nonce s sender chain_id = max_nonce_from sender chain_id s.txs none

-- A held lock; `once` is its `sync.Once`.
pub record LaneLock : Type 0 where
  pub key : LaneKey
  pub once : Bool

unfoldable pub unlock : Store → LaneLock → LaneLock × Store
unlock s l = if l.once then (l, s) else (
  record l { once = true },
  record s { lane_locks = filterb (λ k. not (k == l.key)) s.lane_locks },
)

-- `TryLockLane` under a context that is not cancelled.
unfoldable pub try_lock_lane : Store → Address → ℕ → Option LaneLock × Store
try_lock_lane s sender chain_id =
    let key : LaneKey = record { lane_sender = sender; lane_chain = chain_id } in
    if contains s.lane_locks key
    then (none, s)
    else (some (record { key = key; once = false }), record s { lane_locks = key ∷ s.lane_locks })
