-- ===== src/Script.antt =====
-- script/registry.go: the scripts of the projects, their output, their states and who watches them.
pub mod Lines
pub mod LinesLast
pub mod Entry
pub mod History
pub mod ProcessId
pub mod Registry
pub mod Upsert
pub mod Found
pub mod Replacing
