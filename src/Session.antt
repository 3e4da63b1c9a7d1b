-- ===== src/Session.antt =====
-- crates/tau-core/src/session.rs: the session tree, folded from the durable events.
pub mod Tree
pub mod Shape
pub mod Branch
pub mod Leaves
pub mod Replay
mod Examples
