-- ===== src/Spool.antt =====
-- controller/src/core/sqlite.rs: the spool file of a query stream, its writer and its readers.
pub mod Handle
pub mod Writer
pub mod Pieces
pub mod Invariant
pub mod Stream
pub mod Delivery
pub mod Progress
