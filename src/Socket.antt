-- ===== src/Socket.antt =====
-- The programs of socket/.
pub mod GetHost
pub mod Interfaces
mod Tests
