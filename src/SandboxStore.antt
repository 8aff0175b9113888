-- ===== src/SandboxStore.antt =====
-- internal/sandboxstore: sandboxd's durable ledger of Runs, their events, sessions and authority.
-- Every operation is one transaction that rolls back on each error, so that an operation takes the
-- ledger and returns an error, or its answer with the new ledger. The CHECK constraints and the
-- triggers of the schema guard what the code has already decided, and are left out.
pub mod Types
pub mod Validate
pub mod Tables
pub mod Sessions
pub mod Register
pub mod Runtime
pub mod Equal
pub mod Events
pub mod Staged
pub mod Snapshot
pub mod History
pub mod Invariant
pub mod Trace
mod Scenarios
