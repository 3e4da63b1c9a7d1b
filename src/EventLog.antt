-- ===== src/EventLog.antt =====
-- crates/tau-harness/src/event_log.rs: the in-memory log that the clients follow.
pub mod Log
pub mod Sequence
mod Examples
