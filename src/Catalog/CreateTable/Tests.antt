-- ===== src/Catalog/CreateTable/Tests.antt =====
-- `CreateTable` on a catalog with a table of one column.
use cpp_relational_db.Base.{◌≡◌, refl, List, [], ◌∷◌, some, arith, Perm}
use cpp_relational_db.Storage.BufferManager.{returned}
use cpp_relational_db.Storage.DiskManager.{DiskManager, disk_manager}
use cpp_relational_db.Access.TwoPages.{keeps}
use cpp_relational_db.Catalog.Types.{ColumnInfo, uuid_of}
use cpp_relational_db.Catalog.CatalogTables.Lookup.{find_table}
use cpp_relational_db.Catalog.Operations.{Catalog, create_table, lookup_table, get_table_columns}
use cpp_relational_db.Catalog.RowLookups.{columns_of}
use cpp_relational_db.Catalog.CreateTable.{new_columns, Created, create_table-Created}
use cpp_relational_db.Catalog.CreateTable.Lookups.{create_table-lookup_table, create_table_others}
use cpp_relational_db.Catalog.CreateTable.OneTable.{
  table_row, column_row, columns, name, catalog, table_pages, column_pages, table,
  catalog-HoldsRows, table-TableWritable, columns-ColumnWritable, ids_enough,
}

create_table-Created_example :
    (c' : Catalog DiskManager) × (create_table disk_manager 4 catalog
        (uuid_of 10)
        (uuid_of 11)
        name
        columns
      ≡ returned (some (uuid_of 10)) c')
    × Created disk_manager keeps 4 catalog
        (uuid_of 10)
        (uuid_of 11)
        name
        columns
        table_pages
        column_pages
        (table_row ∷ [])
        (column_row ∷ [])
        c'
create_table-Created_example =
    create_table-Created disk_manager keeps 4 catalog (uuid_of 10) (uuid_of 11) name columns
      table_pages column_pages (table_row ∷ []) (column_row ∷ []) catalog-HoldsRows ids_enough
      table-TableWritable columns-ColumnWritable (omega arith) (omega arith)

create_table-lookup_table_example :
    (c₁ : Catalog DiskManager) × (c₂ : Catalog DiskManager) × (c₃ : Catalog DiskManager)
    × (found : List ColumnInfo) × (create_table disk_manager 4 catalog
          (uuid_of 10)
          (uuid_of 11)
          name
          columns
        ≡ returned (some (uuid_of 10)) c₁)
    × (lookup_table disk_manager 4 4 0 c₁ name ≡ returned (some (some table)) c₂)
    × (get_table_columns disk_manager 4 4 0 c₂ (uuid_of 10) ≡ returned (some found) c₃)
    × Perm found (new_columns (uuid_of 10) columns)
create_table-lookup_table_example =
    create_table-lookup_table disk_manager keeps 4 4 0 catalog (uuid_of 10) (uuid_of 11) name
      columns table_pages column_pages (table_row ∷ []) (column_row ∷ []) catalog-HoldsRows
      ids_enough table-TableWritable columns-ColumnWritable (omega arith) (omega arith)
      (omega arith) (omega arith) refl refl

create_table_others_example :
    (c₁ : Catalog DiskManager) × (c₂ : Catalog DiskManager) × (c₃ : Catalog DiskManager)
    × (create_table disk_manager 4 catalog (uuid_of 10) (uuid_of 11) name columns
        ≡ returned (some (uuid_of 10)) c₁)
    × (lookup_table disk_manager 4 4 0 c₁ (117 ∷ 49 ∷ [])
        ≡ returned (some (find_table (117 ∷ 49 ∷ []) (table_row ∷ []))) c₂)
    × (get_table_columns disk_manager 4 4 0 c₂ (uuid_of 9)
        ≡ returned (some (columns_of (uuid_of 9) (column_row ∷ []))) c₃)
create_table_others_example =
    create_table_others disk_manager keeps 4 4 0 catalog (uuid_of 10) (uuid_of 11) name columns
      table_pages column_pages (table_row ∷ []) (column_row ∷ []) catalog-HoldsRows ids_enough
      table-TableWritable columns-ColumnWritable (omega arith) (omega arith) (omega arith)
      (omega arith) (117 ∷ 49 ∷ []) (uuid_of 9) refl refl
