-- ===== src/Files.antt =====
-- The programs of files_and_directories/.
pub mod Stat
pub mod Types
pub mod Access
pub mod Links
pub mod Unlink
mod Tests
