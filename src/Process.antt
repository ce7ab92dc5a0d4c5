-- ===== src/Process.antt =====
-- The programs of process_control/.
pub mod Account
pub mod Status
pub mod System
pub mod Nice
pub mod Times
pub mod Exec
pub mod Tree
pub mod Priority
mod Tests
