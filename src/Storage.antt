-- ===== src/Storage.antt =====
-- The storage layer: pages of bytes, the slotted page, the disk and the buffer pool.
pub mod Bytes
pub mod SlottedPage
pub mod Disk
pub mod DiskManager
pub mod FreeList
pub mod ClockPolicy
pub mod BufferManager
