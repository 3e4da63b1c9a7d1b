-- ===== src/Store.antt =====
-- crates/tau-core/src/session_store.rs: the durable log of a session and its cached tree.
pub mod Framing
pub mod Loading
pub mod Termination
pub mod Append
pub mod Recovery
pub mod Drift
mod Examples
