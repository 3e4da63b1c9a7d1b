-- ===== src/Dedup.antt =====
-- crates/tau-harness/src/dedup.rs, and its use in crates/tau-harness/src/harness.rs: repeated tool
-- results become pointers to the first.
pub mod Results
pub mod Rebuild
pub mod Intake
mod Examples
