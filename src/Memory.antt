-- ===== src/Memory.antt =====
-- kernel/src/memory: physical frames and the areas of an address space.
pub mod Regions
pub mod Boot
pub mod Buddy
pub mod Paging
pub mod Fault
pub mod Swap
pub mod Area
pub mod FreeList
mod Tests
