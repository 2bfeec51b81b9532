-- ===== src/Txmngr/Safety.antt =====
-- What every action of the manager preserves, whatever the environment answers: proofs about
-- evm/txmngr/txmngr.go over the queue of evm/txmngr/txmngr_provider/mem/tx.go.
mod Durable
mod Keeps
mod Primitives
mod Sending
mod Signing
mod Stepping
mod Batching
pub use Durable.*
pub use Keeps.*
pub use Primitives.*
pub use Sending.*
pub use Signing.*
pub use Stepping.*
pub use Batching.*
