-- ===== src/Shell.antt =====
-- The tools of the shell extension (crates/tau-ext-shell): the patches of `apply_patch` and the
-- truncation of what a tool prints.
pub mod Splice
pub mod Chunks
pub mod Seek
pub mod Patch
pub mod Parsing
pub mod Hunks
pub mod Applied
pub mod Effect
pub mod Summary
pub mod Edit
pub mod Found
pub mod Edits
pub mod Truncate
pub mod Limits
pub mod ChunkOrder
pub mod Placement
mod Examples
