-- ===== src/Ipc.antt =====
-- The program of interprocess_communication/.
pub mod MessageQueue
mod Tests
