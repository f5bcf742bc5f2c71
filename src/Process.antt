-- ===== src/Process.antt =====
-- process/: the managed processes of the hub and their output.
pub mod RingBuffer
pub mod LineWriter
pub mod Managed
pub mod Itoa
pub mod Maps
pub mod Manager
pub mod Counting
pub mod Finding
pub mod Lifecycle
pub mod World
pub mod Owner
pub mod Touch
pub mod Act
pub mod Tickets
pub mod Run
pub mod Done
pub mod Ending
pub mod Shutdown
pub mod Draining
pub mod Ended
pub mod Moves
pub mod Restart
