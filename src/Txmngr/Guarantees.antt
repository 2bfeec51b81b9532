-- ===== src/Txmngr/Guarantees.antt =====
-- What a pass of `processTxs` (evm/txmngr/txmngr.go) guarantees of the queue of
-- evm/txmngr/txmngr_provider/mem/tx.go, whatever clock, nodes, signer and hooks answer.
use superform_go_utils.Prelude.{ℕ, List, ◌++◌, some, Text, text_eq, nat_eq, true, ◌≡◌, lookup, All}
use superform_go_utils.Txmngr.Types.{Hash, Transaction, TransactionAttempt, is_completed}
use superform_go_utils.Txmngr.Mem.{attempts_of}
use superform_go_utils.Txmngr.Action.{State}
use superform_go_utils.Txmngr.Manager.{Manager}
use superform_go_utils.Txmngr.Batch.{process_lane_batch, process_txs}
use superform_go_utils.Txmngr.Safety.{
  IsDurable, EffectOwned, IsValid, Keeps-lane_batch, Keeps-process_txs,
}

-- From a valid state, a pass over the due lanes leaves every row that has a terminal status exactly
-- as it is.
pub process_txs-terminal_fixed :
    (m : Manager) (index : ℕ) (s : State) (id : Text) (tx : Transaction)
    → IsValid s
    → lookup id s.store.txs ≡ some tx
    → is_completed tx ≡ true
    → lookup id (process_txs m index s).1.store.txs ≡ some tx
process_txs-terminal_fixed m index s id tx v found done =
    ((Keeps-process_txs m index).at s v tt).0.settled id tx found done

-- From a valid state, a pass removes no row: each id of the queue still names a row.
pub process_txs-keeps_rows :
    (m : Manager) (index : ℕ) (s : State) (id : Text) (tx : Transaction)
    → IsValid s
    → lookup id s.store.txs ≡ some tx
    → (tx' : Transaction) × (lookup id (process_txs m index s).1.store.txs ≡ some tx')
process_txs-keeps_rows m index s id tx v found =
    ((Keeps-process_txs m index).at s v tt).0.kept id tx found

-- From a valid state, a pass only appends to the attempts of a transaction: those it had stand, in
-- their order, at the head of those it has.
pub process_txs-appends_attempts :
    (m : Manager) (index : ℕ) (s : State) (id : Text)
    → IsValid s
    → (more : List TransactionAttempt) × (attempts_of (process_txs m index s).1.store id
        ≡ attempts_of s.store id ++ more)
process_txs-appends_attempts m index s id v = ((Keeps-process_txs m index).at s v tt).0.appended id

-- From a valid state, a pass never moves an attempt hash to another transaction.
pub process_txs-owner_fixed :
    (m : Manager) (index : ℕ) (s : State) (hash : Hash) (id : Text)
    → IsValid s
    → lookup hash s.store.hashes ≡ some id
    → lookup hash (process_txs m index s).1.store.hashes ≡ some id
process_txs-owner_fixed m index s hash id v owned =
    ((Keeps-process_txs m index).at s v tt).0.owners hash id owned

-- From a valid state, where each stored attempt is durable and each transaction handed to a node so
-- far was owned in the queue when it was sent, that ownership holds after a pass for all that the
-- pass sent too: the hash was in the queue at the moment of the send and still has the same owner.
pub process_txs-persists_before_send :
    (m : Manager) (index : ℕ) (s : State)
    → IsValid s
    → All (EffectOwned (process_txs m index s).1.store) (process_txs m index s).1.trace
process_txs-persists_before_send m index s v = ((Keeps-process_txs m index).at s v tt).1.broadcast

-- From a valid state, after a pass each stored attempt is owned by the transaction it is stored for,
-- and its hash is that of its signed envelope.
pub process_txs-stores-IsDurable :
    (m : Manager) (index : ℕ) (s : State) (id : Text)
    → IsValid s
    → All
        (IsDurable (process_txs m index s).1.store)
        (attempts_of (process_txs m index s).1.store id)
process_txs-stores-IsDurable m index s id v = ((Keeps-process_txs m index).at s v tt).1.stored id

-- From a valid state, the pass over one lane leaves the set of held lane locks as it found it: a
-- lock that it takes is released on every path, and a lock that another manager holds stays held.
pub process_lane_batch-releases_lock :
    (m : Manager) (chain_id : ℕ) (s : State)
    → IsValid s
    → (process_lane_batch m chain_id s).1.store.lane_locks ≡ s.store.lane_locks
process_lane_batch-releases_lock m chain_id s v = ((Keeps-lane_batch m chain_id).at s v tt).0.locks
