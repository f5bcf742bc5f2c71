-- ===== src/Hub.antt =====
-- hub/: the server that reads commands and hands them to their handlers.
pub mod Registry
pub mod Keys
pub mod InStep
pub mod Changes
pub mod Routing
