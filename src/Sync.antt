-- ===== src/Sync.antt =====
-- kernel/src/sync: the locks of user space.
pub mod Condvar
pub mod Table
pub mod Resource
mod Tests
