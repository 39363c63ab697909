-- ===== src/InMemory.antt =====
-- src/in-memory: the storages, the view and the message bus that keep everything in memory.
pub mod EventStorage
pub mod SnapshotStorage
pub mod MessageBus
pub mod View
pub mod Lock
