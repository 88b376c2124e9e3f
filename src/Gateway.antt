-- ===== src/Gateway.antt =====
-- crates/mentat-analysis/src/repository_tools.rs: the gateway through which a model reads the
-- repository.
pub mod Types
pub mod Tools
pub mod Search
pub mod Execute
pub mod Bounds
pub mod Safety
pub mod Reading
pub mod Examples
