-- ===== src/Model/TableManager/Tests.antt =====
-- A user table with one column, opened by its name.
use cpp_relational_db.Base.{ℕ, ◌≡◌, refl, List, [], ◌∷◌, some, none, arith, map}
use cpp_relational_db.Util.Data.{write_uint, write_array, write_string}
use cpp_relational_db.Storage.BufferManager.{BufferManager}
use cpp_relational_db.Storage.BufferManager.Invariant.{Preserves}
use cpp_relational_db.Storage.DiskManager.{DiskManager, disk_manager}
use cpp_relational_db.Storage.DiskManager.Pages.{Stores}
use cpp_relational_db.Access.HeapFile.{open_heap_file}
use cpp_relational_db.Access.HeapFile.Visit.{Settled}
use cpp_relational_db.Access.HeapFile.Shape.{blank, appended}
use cpp_relational_db.Access.TwoPages.{
  keeps, pool_of, pool-Ready, first-Chain, second-Chain, page_with, page_with-IsPageOf,
}
use cpp_relational_db.Catalog.Types.{TableInfo, ColumnInfo, uuid_of, text_type}
use cpp_relational_db.Catalog.TableInfoCodec
use cpp_relational_db.Catalog.ColumnInfoCodec
use cpp_relational_db.Catalog.CatalogTables.Lookup.{find_table}
use cpp_relational_db.Model.TableManager.{TableManager, open_table}
use cpp_relational_db.Model.TableManager.Open.{Holding, opened, cache_after, open_table-find_table}

abbrev table_row : TableInfo
table_row = record {
  table_id = uuid_of 9;
  table_name = 117 ∷ 49 ∷ [];
  heap_file_id = uuid_of 8;
  first_page_id = 5;
}

table_row-Fits : TableInfoCodec.Fits table_row
table_row-Fits = record {
  table_id = refl;
  table_name = omega arith;
  heap_file_id = refl;
  first_page_id = omega arith;
}

abbrev column_row : ColumnInfo
column_row = record {
  table_id = uuid_of 9;
  col_name = 97 ∷ [];
  type_id = text_type;
  ordinal_position = 1;
}

column_row-Fits : ColumnInfoCodec.Fits column_row
column_row-Fits = record {
  table_id = refl;
  col_name = omega arith;
  type_id = omega arith;
  ordinal_position = omega arith;
}

abbrev table_bytes : List ℕ
table_bytes = TableInfoCodec.encode table_row

abbrev column_bytes : List ℕ
column_bytes = ColumnInfoCodec.encode column_row

abbrev pool : BufferManager DiskManager
pool = pool_of (page_with table_bytes) (page_with column_bytes) 2

abbrev manager : TableManager DiskManager
manager = record {
  cache = [];
  catalog = record {
    bm = pool;
    tables = some (open_heap_file [] 0);
    attributes = some (open_heap_file [] 1);
    types = none;
  };
}

tables-Holding :
    Holding keeps 2 2 (open_heap_file [] 0) pool (map TableInfoCodec.encode (table_row ∷ []))
unfolding TableInfoCodec.encode write_uint write_array write_string
tables-Holding = record {
  pages = appended (blank 0) table_bytes ∷ [];
  chain =
      first-Chain (page_with table_bytes) (page_with column_bytes) 2
        (appended (blank 0) table_bytes) refl (page_with-IsPageOf 0 table_bytes (omega arith))
        (omega arith);
  first = refl;
  records = refl;
  turns_enough = omega arith;
  n_enough = omega arith;
}

attributes-Holding :
    Holding keeps 2 2 (open_heap_file [] 1) pool (map ColumnInfoCodec.encode (column_row ∷ []))
unfolding ColumnInfoCodec.encode write_uint write_array write_string
attributes-Holding = record {
  pages = appended (blank 1) column_bytes ∷ [];
  chain =
      second-Chain (page_with table_bytes) (page_with column_bytes) 2
        (appended (blank 1) column_bytes) refl (page_with-IsPageOf 1 column_bytes (omega arith))
        (omega arith);
  first = refl;
  records = refl;
  turns_enough = omega arith;
  n_enough = omega arith;
}

-- The manager over another pool, and with another cache.
abbrev manager_after : BufferManager DiskManager → TableManager DiskManager
manager_after b' = record {
  cache =
      cache_after (117 ∷ 49 ∷ []) (column_row ∷ []) (find_table (117 ∷ 49 ∷ []) (table_row ∷ []))
        [];
  catalog = record manager.catalog { bm = b' };
}

open_table-find_table_example :
    (b' : BufferManager DiskManager) × (open_table disk_manager 2 2 (0, 1) manager (117 ∷ 49 ∷ [])
      ≡ opened (column_row ∷ []) (find_table (117 ∷ 49 ∷ []) (table_row ∷ [])) (manager_after b'))
    × Settled keeps pool b'
    × Preserves Stores pool b'
open_table-find_table_example =
    open_table-find_table disk_manager keeps 2 2 (0, 1) manager (117 ∷ 49 ∷ [])
      (open_heap_file [] 0) (open_heap_file [] 1) refl refl
      (pool-Ready (page_with table_bytes) (page_with column_bytes) 2) (table_row ∷ [])
      (column_row ∷ []) (table_row-Fits, tt) (column_row-Fits, tt) tables-Holding attributes-Holding
      refl
