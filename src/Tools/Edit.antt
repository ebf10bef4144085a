-- ===== src/Tools/Edit.antt =====
-- di-core/src/tools/edit_file.rs: edits of files at anchored lines.
pub mod Apply
pub mod Patch
pub mod Distance
pub mod Resolve
pub mod InFile
pub mod Overlap
pub mod Report
pub mod Arguments
pub mod Handler
pub mod DryRun
pub mod Emptied
mod Tests
mod Calls
