-- ===== src/Client.antt =====
-- client/: what a client of the hub needs to reach it.
pub mod Version
pub mod VersionOrder
pub mod VersionTrip
pub mod Resilient
pub mod Reconnecting
pub mod Backoff
