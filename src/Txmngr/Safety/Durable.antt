-- ===== src/Txmngr/Safety/Durable.antt =====
-- The durable state that a pass may only extend.
use superform_go_utils.Prelude.{
  refl, subst, none, List, ◌++◌, Option, some, Text, text_eq, nat_eq, true, ◌≡◌, lookup, All,
}
use superform_go_utils.Txmngr.Types.{Hash, SignedTx, Transaction, TransactionAttempt, is_completed}
use superform_go_utils.Txmngr.Mem.{Store, attempts_of}
use superform_go_utils.Txmngr.Action.{
  State, Effect, sent, result_observed, barrier_observed, active_set,
}

-- The hash of a signed transaction, where there is one.
abbrev pub HasHash : Option SignedTx → Hash → Type 0
HasHash none hash = Unit {0}
HasHash (some signed) hash = signed.hash ≡ hash

pub HasHash-from :
    (o : Option SignedTx) (hash : Hash)
    → ((signed : SignedTx) → o ≡ some signed → signed.hash ≡ hash)
    → HasHash o hash
HasHash-from none hash h = tt
HasHash-from (some signed) hash h = h signed refl

pub HasHash-gives :
    (o : Option SignedTx) (hash : Hash) (signed : SignedTx)
    → o ≡ some signed
    → HasHash o hash
    → signed.hash ≡ hash
HasHash-gives o hash signed e h = subst (λ x. HasHash x hash) e h

-- The attempt's hash belongs to its transaction in the queue, and it is the hash of its envelope.
pub record IsDurable (s : Store) (a : TransactionAttempt) : Type 0 where
  pub owned : lookup a.hash s.hashes ≡ some a.transaction_id
  pub matches : HasHash a.tx a.hash

-- The queue held the hash for a transaction when it was sent, and holds it for that one still.
abbrev pub HasOwner : Store → Hash → Option Text → Type 0
HasOwner s hash seen = (id : Text) × (seen ≡ some id) × (lookup hash s.hashes ≡ some id)

abbrev pub EffectOwned : Store → Effect → Type 0
EffectOwned s (sent chain_id tx seen) = HasOwner s tx.hash seen
EffectOwned s (result_observed chain_id status) = Unit {0}
EffectOwned s (barrier_observed chain_id reason) = Unit {0}
EffectOwned s (active_set chain_id count) = Unit {0}

-- Every stored attempt is durable, and so was every transaction when it was handed to a node.
pub record IsValid (s : State) : Type 0 where
  pub stored : (id : Text) → All (IsDurable s.store) (attempts_of s.store id)
  pub broadcast : All (EffectOwned s.store) s.trace

-- Terminal rows and the owners of hashes stay, no row goes, attempts are only appended.
pub record Extends (s t : Store) : Type 0 where
  pub settled :
      (id : Text) (tx : Transaction)
      → lookup id s.txs ≡ some tx
      → is_completed tx ≡ true
      → lookup id t.txs ≡ some tx
  pub kept :
      (id : Text) (tx : Transaction)
      → lookup id s.txs ≡ some tx
      → (tx' : Transaction) × (lookup id t.txs ≡ some tx')
  pub owners :
      (hash : Hash) (id : Text) → lookup hash s.hashes ≡ some id → lookup hash t.hashes ≡ some id
  pub appended :
      (id : Text) → (more : List TransactionAttempt) × (attempts_of t id ≡ attempts_of s id ++ more)
  pub locks : t.lane_locks ≡ s.lane_locks
