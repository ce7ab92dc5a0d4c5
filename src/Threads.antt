-- ===== src/Threads.antt =====
-- The programs of threads/.
pub mod Body
pub mod Slot
pub mod Exit
pub mod Cleanup
pub mod Timedlock
pub mod Identification
mod Tests
