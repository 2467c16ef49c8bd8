-- ===== src/Model/TableManager/Created/Tests.antt =====
-- A user table that is created and opened, beside a table of one column.
use cpp_relational_db.Base.{◌≡◌, refl, [], ◌∷◌, some, arith, Perm}
use cpp_relational_db.Storage.Disk.{take_id, invalid_page_id}
use cpp_relational_db.Storage.BufferManager.{returned}
use cpp_relational_db.Storage.DiskManager.{DiskManager, disk_manager}
use cpp_relational_db.Access.HeapFile.{open_heap_file}
use cpp_relational_db.Access.HeapFile.Chain.{Chain}
use cpp_relational_db.Access.HeapFile.Shape.{blank}
use cpp_relational_db.Access.HeapFile.Visit.{Ready}
use cpp_relational_db.Access.TwoPages.{keeps}
use cpp_relational_db.Catalog.Types.{uuid_of}
use cpp_relational_db.Catalog.CreateTable.{new_columns}
use cpp_relational_db.Catalog.CreateTable.OneTable.{
  table_row, column_row, columns, name, catalog, table_pages, column_pages, catalog-HoldsRows,
  table-TableWritable, columns-ColumnWritable, ids_enough,
}
use cpp_relational_db.Model.TableManager.{UserTable, TableManager, create_user_table, open_table}
use cpp_relational_db.Model.TableManager.Created.{create_user_table-open_table}

abbrev manager : TableManager DiskManager
manager = record { cache = []; catalog = catalog }

create_user_table-open_table_example :
    (tm₁ : TableManager DiskManager) × (tm₂ : TableManager DiskManager) × (table : UserTable)
    × (create_user_table disk_manager 4 manager (uuid_of 10) (uuid_of 11) name columns
        ≡ returned (some (uuid_of 10)) tm₁)
    × (open_table disk_manager 4 4 (0, 1) tm₁ name ≡ returned (some table) tm₂)
    × (table.table_id ≡ uuid_of 10)
    × Perm table.schema (new_columns (uuid_of 10) columns)
    × (table.hf ≡ open_heap_file (uuid_of 11) (take_id (keeps.ids catalog.bm.disk)).1)
    × Chain keeps tm₂.catalog.bm
        (blank (take_id (keeps.ids catalog.bm.disk)).1 ∷ [])
        invalid_page_id
    × Ready tm₂.catalog.bm
    × (tm₂.cache ≡ (name, table) ∷ [])
create_user_table-open_table_example =
    create_user_table-open_table disk_manager keeps 4 4 (0, 1) manager (uuid_of 10) (uuid_of 11)
      name columns table_pages column_pages (table_row ∷ []) (column_row ∷ []) catalog-HoldsRows
      ids_enough table-TableWritable columns-ColumnWritable (omega arith) (omega arith)
      (omega arith) (omega arith) refl refl refl
