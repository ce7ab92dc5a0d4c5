-- ===== src/AdvancedIo.antt =====
-- The programs of advanced_io/.
pub mod Nonblock
pub mod Mmap
pub mod RecordLock
pub mod Asynchronous
pub mod MandatoryLock
mod Tests
