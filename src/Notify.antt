-- ===== src/Notify.antt =====
-- The notify channel (crates/tau-blocking-notify-channel): many senders, one receiver, one bit.
pub mod Channel
pub mod Wakeups
pub mod Delivery
mod Examples
