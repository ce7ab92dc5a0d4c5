-- ===== src/Environment.antt =====
-- The programs of process_environment/.
pub mod Exit
pub mod Waitid
pub mod Setjmp
pub mod Rlimit
mod Tests
