-- ===== src/Terminal.antt =====
-- The input line of the terminal (crates/tau-cli-term-raw): its completion menu.
pub mod Completion
pub mod Preview
mod Examples
