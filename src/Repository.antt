-- ===== src/Repository.antt =====
-- The crate mentat-repository: the scan of a tree and its snapshots.
pub mod Scan
pub mod Session
