-- ===== src/Catalog.antt =====
-- The catalog: the rows of its tables, their encodings, and the operations on them.
pub mod CatalogTables
pub mod Operations
pub mod Start
pub mod Extended
pub mod InsertMetadata
pub mod RowLookups
pub mod CreateTable
pub mod RootPage
pub mod TypeRows
pub mod Bootstrap
pub mod Reopen
pub mod Types
pub mod TableInfoCodec
pub mod ColumnInfoCodec
pub mod TypeInfoCodec
mod Tests
