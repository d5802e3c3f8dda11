-- ===== src/Release.antt =====
-- client/types.go and internal/util/eventmeta: a release, its steps, and what a directory records of it.
pub mod Log
pub mod Steps
pub mod Files
pub mod Breaks
pub mod Updates
pub mod Folder
pub mod Hooks
pub mod Permission
pub mod Callback
