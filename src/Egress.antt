-- ===== src/Egress.antt =====
-- crates/mentat-analysis/src/egress.rs: what may leave the machine.
pub mod Filename
