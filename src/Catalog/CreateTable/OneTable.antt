-- ===== src/Catalog/CreateTable/OneTable.antt =====
-- A catalog with a table of one column, and a second table to create in it.
use cpp_relational_db.Base.{ℕ, ◌+◌, ◌^◌, ◌<◌, refl, List, [], ◌∷◌, some, none, length, arith}
use cpp_relational_db.Util.Data.{write_uint, write_array, write_string}
use cpp_relational_db.Storage.Bytes.{Page}
use cpp_relational_db.Storage.Disk.{take_id}
use cpp_relational_db.Storage.DiskManager.{DiskManager}
use cpp_relational_db.Access.HeapFile.{open_heap_file}
use cpp_relational_db.Access.HeapFile.Ids.{take_id-Fresh}
use cpp_relational_db.Access.HeapFile.Chain.{Entry}
use cpp_relational_db.Access.HeapFile.Shape.{blank, appended}
use cpp_relational_db.Access.TwoPages.{
  keeps, ids, pool-IsSound, pool_of, pool-Ready, first-Chain, second-Chain, page_with,
  page_with-IsPageOf,
}
use cpp_relational_db.Catalog.Types.{
  TableInfo, ColumnInfo, RawColumnInfo, uuid_of, int_type, text_type,
}
use cpp_relational_db.Catalog.TableInfoCodec
use cpp_relational_db.Catalog.ColumnInfoCodec
use cpp_relational_db.Catalog.CatalogTables.Lookup.{All}
use cpp_relational_db.Catalog.Operations.{Catalog}
use cpp_relational_db.Catalog.Extended.{TableWritable, ColumnWritable, HoldsRows}
use cpp_relational_db.Catalog.CreateTable.{new_table, new_columns}

-- The table "u1" with the column "a".
abbrev pub table_row : TableInfo
table_row = record {
  table_id = uuid_of 9;
  table_name = 117 ∷ 49 ∷ [];
  heap_file_id = uuid_of 8;
  first_page_id = 5;
}

abbrev pub column_row : ColumnInfo
column_row = record {
  table_id = uuid_of 9;
  col_name = 97 ∷ [];
  type_id = text_type;
  ordinal_position = 1;
}

-- The table "u2" gets the columns "b" and "c".
abbrev pub columns : List RawColumnInfo
columns =
    record { col_name = 98 ∷ []; type_id = int_type; ordinal_position = 1 }
    ∷ record { col_name = 99 ∷ []; type_id = text_type; ordinal_position = 2 }
    ∷ []

abbrev pub name : List ℕ
name = 117 ∷ 50 ∷ []

abbrev pub catalog : Catalog DiskManager
catalog = record {
  bm =
      pool_of (page_with (TableInfoCodec.encode table_row))
        (page_with (ColumnInfoCodec.encode column_row)) 6;
  tables = some (open_heap_file [] 0);
  attributes = some (open_heap_file [] 1);
  types = none;
}

abbrev pub table_pages : List Entry
table_pages = appended (blank 0) (TableInfoCodec.encode table_row) ∷ []

abbrev pub column_pages : List Entry
column_pages = appended (blank 1) (ColumnInfoCodec.encode column_row) ∷ []

abbrev x : Page
x = page_with (TableInfoCodec.encode table_row)

abbrev y : Page
y = page_with (ColumnInfoCodec.encode column_row)

pub catalog-HoldsRows :
    HoldsRows keeps catalog table_pages column_pages (table_row ∷ []) (column_row ∷ [])
unfolding TableInfoCodec.encode ColumnInfoCodec.encode write_uint write_array write_string
catalog-HoldsRows = record {
  ready = pool-Ready x y 6;
  sound = pool-IsSound x y 6 (omega arith);
  ht = open_heap_file [] 0;
  ha = open_heap_file [] 1;
  has_tables = refl;
  has_attributes = refl;
  tables = record {
    proper = omega arith;
    first = refl;
    chain =
        first-Chain x y 6 (appended (blank 0) (TableInfoCodec.encode table_row)) refl
          (page_with-IsPageOf 0 (TableInfoCodec.encode table_row) (omega arith)) (omega arith);
    records = refl;
  };
  attributes = record {
    proper = omega arith;
    first = refl;
    chain =
        second-Chain x y 6 (appended (blank 1) (ColumnInfoCodec.encode column_row)) refl
          (page_with-IsPageOf 1 (ColumnInfoCodec.encode column_row) (omega arith)) (omega arith);
    records = refl;
  };
  apart = (((λ s. omega (arith, s)), tt), tt);
  tables_fit = (
    record {
      table_id = refl;
      table_name = omega arith;
      heap_file_id = refl;
      first_page_id = omega arith;
    },
    tt,
  );
  columns_fit = (
    record {
      table_id = refl;
      col_name = omega arith;
      type_id = omega arith;
      ordinal_position = omega arith;
    },
    tt,
  );
}

abbrev pub table : TableInfo
table = new_table (take_id (keeps.ids catalog.bm.disk)).1 (uuid_of 10) (uuid_of 11) name

pub table-TableWritable : TableWritable table
unfolding TableInfoCodec.encode write_uint write_array write_string
table-TableWritable = (
  record {
    table_id = refl;
    table_name = omega arith;
    heap_file_id = refl;
    first_page_id = omega (
      arith,
      (take_id-Fresh (keeps.ids catalog.bm.disk) (pool-IsSound x y 6 (omega arith))).is_id,
    );
  },
  omega arith,
)

pub columns-ColumnWritable : All ColumnWritable (new_columns (uuid_of 10) columns)
unfolding ColumnInfoCodec.encode write_uint write_array write_string
columns-ColumnWritable = (
  (
    record {
      table_id = refl;
      col_name = omega arith;
      type_id = omega arith;
      ordinal_position = omega arith;
    },
    omega arith,
  ),
  (
    (
      record {
        table_id = refl;
        col_name = omega arith;
        type_id = omega arith;
        ordinal_position = omega arith;
      },
      omega arith,
    ),
    tt,
  ),
)

pub ids_enough :
    (keeps.ids catalog.bm.disk).next + 2 + length (new_columns (uuid_of 10) columns) < 2 ^ 31
ids_enough = rw (ids x y 6) (omega arith)
