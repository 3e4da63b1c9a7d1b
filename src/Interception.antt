-- ===== src/Interception.antt =====
-- crates/tau-harness/src/harness/interception.rs: interceptors of publishes, and the queue of the
-- publishes that wait for one.
pub mod Registry
pub mod Chain
pub mod Publish
pub mod Order
pub mod Depth
pub mod Replies
pub mod Drain
pub mod Once
pub mod Progress
pub mod Prompts
pub mod Steps
mod Examples
