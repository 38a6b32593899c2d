-- ===== src/Fs.antt =====
-- kernel/src/fs: the logical file system over a FAT volume.
pub mod Access
pub mod Directories
pub mod Overlay
pub mod Records
pub mod Tables
pub mod Vfs
pub mod Volume
