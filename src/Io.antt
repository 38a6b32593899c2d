-- ===== src/Io.antt =====
-- kernel/src/io: the disk queues.
pub mod Console
pub mod Crc
pub mod Disk
pub mod Device
pub mod Request
pub mod Cscan
pub mod Fcfs
mod Tests
