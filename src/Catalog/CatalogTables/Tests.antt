-- ===== src/Catalog/CatalogTables/Tests.antt =====
-- Catalog tables with a row each, read through a pool.
use cpp_relational_db.Base.{ℕ, ◌≡◌, refl, List, [], ◌∷◌, some, none, arith, filter}
use cpp_relational_db.Util.Data.{write_uint, write_array, write_string}
use cpp_relational_db.Storage.BufferManager.{BufferManager, returned}
use cpp_relational_db.Storage.DiskManager.{DiskManager, disk_manager}
use cpp_relational_db.Access.HeapFile.{HeapFile, Rid, open_heap_file}
use cpp_relational_db.Access.HeapFile.Chain.{Entry}
use cpp_relational_db.Access.HeapFile.Shape.{blank, appended, IsPageOf-init_heap_page}
use cpp_relational_db.Access.TwoPages.{
  keeps, pool-IsSound, pool_of, pool-Ready, first-Chain, empty_page, page_with, page_with-IsPageOf,
}
use cpp_relational_db.Catalog.Types.{TableInfo, ColumnInfo, TypeInfo, uuid_of, int_type, text_type}
use cpp_relational_db.Catalog.TableInfoCodec
use cpp_relational_db.Catalog.ColumnInfoCodec
use cpp_relational_db.Catalog.TypeInfoCodec
use cpp_relational_db.Catalog.CatalogTables.{
  same_text, lookup, get_columns, insert_row, tables_codec,
}
use cpp_relational_db.Catalog.CatalogTables.Lookup.{
  find_table, Unchanged, lookup-find_table, get_columns-filter,
}
use cpp_relational_db.Catalog.CatalogTables.Inserted.{insert_row-lookup}
use cpp_relational_db.Catalog.Operations.{Catalog, header_page}

abbrev heap_file : HeapFile
heap_file = open_heap_file [] 0

abbrev table_row : TableInfo
table_row = record {
  table_id = uuid_of 9;
  table_name = 117 ∷ 49 ∷ [];
  heap_file_id = uuid_of 8;
  first_page_id = 5;
}

table_row-Fits : TableInfoCodec.Fits table_row
table_row-Fits = record {
  table_id = refl;
  table_name = omega arith;
  heap_file_id = refl;
  first_page_id = omega arith;
}

abbrev column_row : ColumnInfo
column_row = record {
  table_id = uuid_of 9;
  col_name = 97 ∷ [];
  type_id = text_type;
  ordinal_position = 1;
}

column_row-Fits : ColumnInfoCodec.Fits column_row
column_row-Fits = record {
  table_id = refl;
  col_name = omega arith;
  type_id = omega arith;
  ordinal_position = omega arith;
}

abbrev type_row : TypeInfo
type_row = record { type_id = int_type; size = 4; type_name = [] }

type_row-Fits : TypeInfoCodec.Fits type_row
type_row-Fits = record { type_id = omega arith; size = omega arith; type_name = omega arith }

-- The pool, and the entry of its heap file, with one record.
abbrev pool : List ℕ → BufferManager DiskManager
pool bs = pool_of (page_with bs) empty_page 2

abbrev entry : List ℕ → Entry
entry bs = appended (blank 0) bs

lookup-find_table_example :
    (b' : BufferManager DiskManager) × (lookup disk_manager 2 2 0 heap_file
        (pool (TableInfoCodec.encode table_row))
        (117 ∷ 49 ∷ [])
      ≡ returned (some (find_table (117 ∷ 49 ∷ []) (table_row ∷ []))) b')
    × Unchanged keeps (pool (TableInfoCodec.encode table_row)) b'
unfolding TableInfoCodec.encode write_uint write_array write_string
lookup-find_table_example =
    lookup-find_table disk_manager keeps 2 2 0 heap_file (pool (TableInfoCodec.encode table_row))
      (entry (TableInfoCodec.encode table_row) ∷ [])
      (pool-Ready (page_with (TableInfoCodec.encode table_row)) empty_page 2)
      (first-Chain (page_with (TableInfoCodec.encode table_row)) empty_page 2
        (entry (TableInfoCodec.encode table_row)) refl
        (page_with-IsPageOf 0 (TableInfoCodec.encode table_row) (omega arith)) (omega arith))
      (omega arith) refl (omega arith) (table_row ∷ []) (117 ∷ 49 ∷ []) (table_row-Fits, tt) refl

get_columns-filter_example :
    (b' : BufferManager DiskManager) × (get_columns disk_manager 2 2 0 heap_file
        (pool (ColumnInfoCodec.encode column_row))
        (uuid_of 9)
      ≡ returned (some (filter (λ col. same_text col.table_id (uuid_of 9)) (column_row ∷ []))) b')
    × Unchanged keeps (pool (ColumnInfoCodec.encode column_row)) b'
unfolding ColumnInfoCodec.encode write_uint write_array write_string
get_columns-filter_example =
    get_columns-filter disk_manager keeps 2 2 0 heap_file (pool (ColumnInfoCodec.encode column_row))
      (entry (ColumnInfoCodec.encode column_row) ∷ [])
      (pool-Ready (page_with (ColumnInfoCodec.encode column_row)) empty_page 2)
      (first-Chain (page_with (ColumnInfoCodec.encode column_row)) empty_page 2
        (entry (ColumnInfoCodec.encode column_row)) refl
        (page_with-IsPageOf 0 (ColumnInfoCodec.encode column_row) (omega arith)) (omega arith))
      (omega arith) refl (omega arith) (column_row ∷ []) (uuid_of 9) (column_row-Fits, tt) refl

-- An empty heap file in the pool.
abbrev empty_pool : BufferManager DiskManager
empty_pool = pool_of empty_page empty_page 2

insert_row-lookup_example :
    (rid : Rid) × (b₁ : BufferManager DiskManager) × (b₂ : BufferManager DiskManager) × (insert_row
        disk_manager 3 tables_codec heap_file empty_pool table_row
      ≡ returned (some (some rid)) (heap_file, b₁))
    × (lookup disk_manager 3 2 0 heap_file b₁ (117 ∷ 49 ∷ []) ≡ returned (some (some table_row)) b₂)
    × Unchanged keeps b₁ b₂
unfolding TableInfoCodec.encode write_uint write_array write_string
insert_row-lookup_example =
    insert_row-lookup disk_manager keeps 3 2 0 heap_file empty_pool (blank 0) []
      (pool-Ready empty_page empty_page 2) (pool-IsSound empty_page empty_page 2 (omega arith))
      (first-Chain empty_page empty_page 2 (blank 0) refl (IsPageOf-init_heap_page 0 (λ _. 0))
        (omega arith))
      (omega arith) refl [] tt refl (omega arith) table_row table_row-Fits (omega arith) refl

-- A catalog over a file whose page 0 is the header.
abbrev catalog : Catalog DiskManager
catalog = record {
  bm = pool_of header_page empty_page 2;
  tables = none;
  attributes = none;
  types = none;
}
