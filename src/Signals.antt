-- ===== src/Signals.antt =====
-- The programs of signals/.
pub mod Mask
pub mod Disposition
pub mod Reset
pub mod Nesting
pub mod Queued
pub mod Pending
pub mod Child
pub mod Jump
pub mod Restart
mod Tests
