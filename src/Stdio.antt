-- ===== src/Stdio.antt =====
-- The programs of standard_io_library/.
pub mod StreamStat
pub mod Fdopen
pub mod Tmpnam
pub mod MemStream
mod Tests
