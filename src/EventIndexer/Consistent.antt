-- ===== src/EventIndexer/Consistent.antt =====
-- What every run of the event indexer keeps (evm/eventindexer/event_indexer.go).
mod Releasing
mod Registering
pub use Releasing.*
pub use Registering.*
