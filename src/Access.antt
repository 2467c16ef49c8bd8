-- ===== src/Access.antt =====
-- The access layer: records in chains of pages.
pub mod HeapFile
pub mod HeapIterator
pub mod TwoPages
pub mod LoadedPage
mod Tests
