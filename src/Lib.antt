-- ===== src/Lib.antt =====
-- A model of the relational database of this repository and proofs that its parts are correct.
--
-- The program is layered. The disk manager keeps pages of 8192 bytes in one file; the buffer
-- manager caches them in frames that it takes from a free list or, when none is left, from the
-- clock policy's victim, which it writes back first; slotted pages lay records of varying length
-- out in the data of a frame, and a heap file keeps its records in a chain of them, which an
-- iterator goes over. Rows are encoded as records, those of the catalog by a codec for each
-- table and those of user tables by a codec that follows the table's schema. The catalog keeps
-- its own tables in heap files, and the table manager opens user tables by what it finds there.
-- Queries run as operators, each of which asks the one below it for a tuple at a time; the
-- planner builds them from a logical plan. A server has a disk manager for each database.
--
--   Base            lists, Boolean tests and their lemmas
--   Storage/Bytes   the raw memory of a page, and memcpy on it
--   Storage/Disk, Storage/DiskManager
--                   include/storage/disk_manager, src/storage/disk_manager/disk_manager.cpp
--   Storage/FreeList, Storage/ClockPolicy, Storage/BufferManager
--                   include/storage/buffer_manager, src/storage/buffer_manager
--   Storage/SlottedPage
--                   include/storage/page, src/storage/page/slotted_page.cpp
--   Access/HeapFile include/access/record.h, include/access/heap/heap_file.h,
--                   src/access/heap/heap_file.cpp
--   Access/HeapIterator
--                   include/access/heap/heap_iterator.h, src/access/heap/heap_iterator.cpp
--   Access/TwoPages, Access/LoadedPage
--                   pools over heap pages, for the tests
--   Util/Data       include/util/data.h
--   Catalog         include/catalog/catalog_types.h and catalog_bootstrap.h,
--                   src/catalog/catalog_codec.cpp, include/common, include/util/uuid.h
--   Catalog/CatalogTables
--                   include/catalog/catalog_table_base.h, src/catalog/catalog_tables.cpp
--   Catalog/Operations
--                   include/catalog/catalog.h, src/catalog/catalog.cpp
--   Catalog/Start, Catalog/Reopen
--                   `Init`, and a database that is opened again
--   Catalog/Extended, Catalog/InsertMetadata, Catalog/CreateTable
--                   the insertions into the catalog, and `CreateTable`
--   Catalog/RootPage, Catalog/TypeRows, Catalog/Bootstrap
--                   `BootstrapCatalogs`
--   Model           src/model; the table manager over the catalog, and a user table in use, are
--                   in Model/TableManager
--   Executor        include/executor, src/executor
--   Planner         include/planner, src/planner/physical/physical_planner.cpp
--   Server          include/server/server.h, src/server/server.cpp
--
-- State is passed explicitly: an operation of a class takes the object's state and returns the
-- new one. A method's name is that of the source in small letters (`FreeSpace` is `free_space`,
-- `open` and `close` of an operator are `open_op` and `close_op`). A `char*` into a page is the
-- page's bytes with an address, a `Frame*` is the frame's index in the pool, and the buffer
-- manager reaches the disk through the interface that the disk manager fills. An exception is
-- the outcome `thrown`, with the state as it then is; a step that is undefined in the source has
-- no result.
--
-- Integers are natural numbers with the wrap-around of their width written out: 16 bits for the
-- fields of a slotted page, 32 for page ids and pin counts, 64 for sizes. Memory is
-- little-endian. A vector that is used as a stack has its back at the head of the list.
--
-- The loop of the clock runs for twice the number of frames, as in the source. The loops of the
-- filter and of the executor run on a bound, and the theorems about them give one that is
-- enough: any number above the number of tuples of the plan. The loops over the pages of a heap
-- file and over its records run on bounds too, and have no result when those do not suffice;
-- more turns than pages and than records are enough.
--
-- A heap file is seen as a list of entries, one for each page of its chain, with the page's id,
-- the bytes free in it and its records (Access/HeapFile/Chain). The theorems about it are over
-- any disk that keeps pages and gives page ids out as the disk manager does. Its operations are
-- also a step relation on the pool and a history of what was written (Access/HeapFile/History);
-- a call has turns for one page more than there were calls, which is enough.
--
-- The catalog is seen as the rows that its heap files hold, on pages that they do not share
-- (Catalog/Extended). `Insert` goes to the first page with room, so that rows are found in an
-- order that depends on their lengths: the rows of a table's columns are known up to a
-- permutation. 16 turns are enough for the loops of `BootstrapCatalogs`, which inserts 16 rows.
--
-- A scan keeps an iterator and the pool. What `Next` returns points into a frame, and is read after
-- the iterator went on; where all pages of the heap file are in the pool no frame is taken for
-- another page meanwhile (Access/HeapIterator/Cached and Next), and the theorems about scans have
-- that condition. An exception that leaves an operator is no result.
--
-- Not modelled: the file is the part of `std::fstream` that the disk manager uses, failed input
-- and output apart from a seek out of range left out. `LogicalPlanner::Build`, the parser and the
-- optimiser are declarations without code, the three functions that the physical planner declares
-- for itself have no body and are parameters, the file system of the server is a parameter, and
-- the random generator of UUIDs has no model: the ids that it draws are arguments.
pub mod Base
pub mod Storage
pub mod Access
pub mod Util
pub mod Catalog
pub mod Model
pub mod Executor
pub mod Planner
pub mod Server
