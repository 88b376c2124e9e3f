-- ===== src/Core.antt =====
-- The crate mentat-core: errors, models and the bindings of a transmission to its target.
pub mod Error
pub mod Models
pub mod Tools
pub mod Binding
pub mod Egress
pub mod Conversation
