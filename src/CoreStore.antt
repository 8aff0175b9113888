-- ===== src/CoreStore.antt =====
-- internal/corestore: the durable store behind agentd.
pub mod Types
pub mod Validate
pub mod Options
pub mod Tables
pub mod Evict
pub mod Ingest
pub mod Dispatch
pub mod Outbox
pub mod Completion
pub mod Finish
pub mod Maintenance
pub mod Invariant
pub mod Trace
pub mod Admission
pub mod Replay
mod Scenarios
