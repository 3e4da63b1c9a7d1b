-- ===== src/Proto.antt =====
-- crates/tau-proto: what the other parts use of the protocol. Names of events and their selectors,
-- the events that the harness folds or routes by, and the frame that the bus carries.
pub mod Category
pub mod Name
pub mod Prefix
pub mod Event
mod Examples
