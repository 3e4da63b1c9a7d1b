-- ===== src/Tools.antt =====
-- crates/tau-core/src/tool_registry.rs: which connection provides which tool.
pub mod Registry
pub mod Agreement
pub mod Removal
pub mod Lifetime
pub mod Routing
mod Examples
