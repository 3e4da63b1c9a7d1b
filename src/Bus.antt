-- ===== src/Bus.antt =====
-- crates/tau-core/src/bus.rs, connection.rs and policy.rs: the event bus, its connections and
-- the policy that gates subscriptions.
pub mod Connection
pub mod Digits
pub mod Routing
pub mod Reports
pub mod Subscriptions
pub mod Directed
pub mod Policy
pub mod Reach
pub mod Approvals
mod Examples
