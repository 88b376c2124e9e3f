-- ===== src/Storage.antt =====
-- crates/mentat-storage/src: the SQLite store, as the rows of its tables.
pub mod Receipts
pub mod Conversations
