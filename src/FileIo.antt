-- ===== src/FileIo.antt =====
-- The programs of file_io/, with the calls that they make and the loop that two of them share.
pub mod Flags
pub mod Kernel
pub mod Pump
pub mod Copy
pub mod DevFd
pub mod StatusFlags
pub mod Memory
mod Tests
