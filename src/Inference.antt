-- ===== src/Inference.antt =====
-- The crate mentat-inference: what the agent loop and a provider say to each other.
pub mod Types
pub mod Catalog
