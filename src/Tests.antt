-- ===== src/Tests.antt =====
-- The theorems at concrete inputs.
mod Protocol
mod Process
mod Client
mod Hub
mod Scheduler
mod Script
mod Managing
