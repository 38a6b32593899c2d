-- ===== src/Ipc.antt =====
-- kernel/src/ipc: the channels between processes.
pub mod Shm
pub mod Channel
pub mod Pipe
pub mod MsgQueue
pub mod Table
mod Tests
