-- ===== src/Prelude/Tables/Laws.antt =====
-- The laws of the table functions that the proofs about every component share.
pub mod Rows
pub mod Every
pub use Rows.*
pub use Every.*
