-- ===== src/History.antt =====
-- history/: what is published of the ledgers, in checkpoints.
pub mod Checkpoints
pub mod Ranges
