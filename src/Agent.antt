-- ===== src/Agent.antt =====
-- The connections of the agent to its provider (crates/tau-agent): the pool of web sockets and the
-- turns that run through it.
pub mod Pool
pub mod Recency
pub mod Usage
pub mod Turn
pub mod Fallback
mod Examples
