-- ===== src/Txmngr.antt =====
-- The transaction manager (evm/txmngr) and its in-memory queue (evm/txmngr/txmngr_provider).
pub mod Types
pub mod Errors
pub mod Lane
pub mod Fees
pub mod Broadcast
pub mod Message
pub mod Mem
pub mod Action
pub mod Manager
pub mod Summary
pub mod Schedule
pub mod Settle
pub mod Attempts
pub mod Sign
pub mod Send
pub mod Step
pub mod Batch
pub mod Notify
pub mod Submit
pub mod Safety
pub mod Nonces
pub mod Guarantees
mod Sample
mod Tests
