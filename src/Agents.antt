-- ===== src/Agents.antt =====
-- crates/gcpx-agents: data agents, their access policy and their evaluations.
pub mod Iam
pub mod Checks
pub mod Inputs
pub mod Chat
