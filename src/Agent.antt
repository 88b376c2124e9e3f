-- ===== src/Agent.antt =====
-- crates/mentat-analysis/src/agent_loop.rs: `AgentLoop`, the rounds of one turn.
pub mod State
pub mod Round
pub mod Calls
pub mod Loop
pub mod Log
pub mod Events
pub mod Induction
pub mod Records
pub mod Limits
pub mod Sources
pub mod Safety
pub mod Examples
