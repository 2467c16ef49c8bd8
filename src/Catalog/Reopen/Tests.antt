-- ===== src/Catalog/Reopen/Tests.antt =====
-- A file of three pages, the header and a page of each catalog table, that is opened again.
use cpp_relational_db.Base.{
  ℕ, ◌+◌, ◌-◌, ◌*◌, ◌<◌, ◌≡◌, refl, List, [], ◌∷◌, none, some, arith, ltb, le→ltb, lt→ltb,
  if◌then◌else◌,
}
use cpp_relational_db.Util.Data.{write_uint, write_array, write_string}
use cpp_relational_db.Storage.Bytes.{Page, page_size}
use cpp_relational_db.Storage.Disk.{invalid_page_id}
use cpp_relational_db.Storage.BufferManager.{
  returned, new_buffer_manager, flush_all, flush_from, flush_if_dirty,
}
use cpp_relational_db.Storage.BufferManager.Start.{new_buffer_manager-Holds}
use cpp_relational_db.Storage.DiskManager.{DiskManager, disk_manager, get_num_pages}
use cpp_relational_db.Storage.DiskManager.Pages.{Stores, keeps_pages}
use cpp_relational_db.Access.HeapFile.{open_heap_file}
use cpp_relational_db.Access.HeapFile.Chain.{Entry, IsPageOf, Chain}
use cpp_relational_db.Access.HeapFile.Shape.{blank, appended}
use cpp_relational_db.Access.HeapFile.Reopen.{new_buffer_manager-Ready}
use cpp_relational_db.Access.TwoPages.{keeps, page_with, page_with-IsPageOf}
use cpp_relational_db.Catalog.Types.{TableInfo, ColumnInfo, uuid_of, text_type}
use cpp_relational_db.Catalog.TableInfoCodec
use cpp_relational_db.Catalog.ColumnInfoCodec
use cpp_relational_db.Catalog.CatalogTables.Lookup.{find_table}
use cpp_relational_db.Catalog.Operations.{
  Catalog, header_page, init_catalog, lookup_table, get_table_columns, db_tables_file_id,
  db_attributes_file_id,
}
use cpp_relational_db.Catalog.Extended.{HoldsRows}
use cpp_relational_db.Catalog.RowLookups.{columns_of}
use cpp_relational_db.Catalog.Reopen.{fresh_catalog, flush_all-init_catalog}

abbrev table_row : TableInfo
table_row = record {
  table_id = uuid_of 9;
  table_name = 117 ∷ 49 ∷ [];
  heap_file_id = uuid_of 8;
  first_page_id = 5;
}

abbrev column_row : ColumnInfo
column_row = record {
  table_id = uuid_of 9;
  col_name = 97 ∷ [];
  type_id = text_type;
  ordinal_position = 1;
}

abbrev x : Page
x = page_with (TableInfoCodec.encode table_row)

abbrev y : Page
y = page_with (ColumnInfoCodec.encode column_row)

abbrev file : DiskManager
file = record {
  db_io = record {
    size = 24576;
    byte = λ j.
        if ltb j 8192 then header_page j else if ltb j 16384 then x (j - 8192) else y (j - 16384);
  };
  free_list = [];
  next_page_id = 6;
}

file-Stores_header : Stores file 0 header_page
file-Stores_header = record {
  id = omega arith;
  within = omega arith;
  bytes = λ i l.
      let same : 0 * page_size + i ≡ i = omega arith in rw (same, lt→ltb i 8192 (omega arith));
}

file-Stores_tables : Stores file 1 x
file-Stores_tables = record {
  id = omega arith;
  within = omega arith;
  bytes = λ i l.
      let same : 1 * page_size + i - 8192 ≡ i = omega arith in
      rw (
        le→ltb (1 * page_size + i) 8192 (omega arith),
        lt→ltb (1 * page_size + i) 16384 (omega arith),
        same,
      );
}

file-Stores_columns : Stores file 2 y
file-Stores_columns = record {
  id = omega arith;
  within = omega arith;
  bytes = λ i l.
      let same : 2 * page_size + i - 16384 ≡ i = omega arith in
      rw (
        le→ltb (2 * page_size + i) 8192 (omega arith),
        le→ltb (2 * page_size + i) 16384 (omega arith),
        same,
      );
}

abbrev catalog : Catalog DiskManager
catalog = record {
  bm = new_buffer_manager 2 (λ _. 0) file;
  tables = some (open_heap_file db_tables_file_id 1);
  attributes = some (open_heap_file db_attributes_file_id 2);
  types = none;
}

catalog_ids : keeps.ids catalog.bm.disk ≡ record { free = []; next = 6 }
unfolding new_buffer_manager
catalog_ids = keeps_pages.1 file

page-Chain :
    (p : ℕ) (e : Entry) (z : Page)
    → Stores file p z
    → p < 6
    → e.id ≡ p
    → IsPageOf e invalid_page_id z
    → Chain keeps catalog.bm (e ∷ []) invalid_page_id
page-Chain p e z s l i shape = (
  record {
    page = z;
    holds = rw i (new_buffer_manager-Holds 2 (λ _. 0) file Stores p z s);
    is_id = omega (arith, i, l);
    used = rw (catalog_ids, i) (l, refl);
    shape = shape;
  },
  tt,
  tt,
)

abbrev table_pages : List Entry
table_pages = appended (blank 1) (TableInfoCodec.encode table_row) ∷ []

abbrev column_pages : List Entry
column_pages = appended (blank 2) (ColumnInfoCodec.encode column_row) ∷ []

catalog-HoldsRows :
    HoldsRows keeps catalog table_pages column_pages (table_row ∷ []) (column_row ∷ [])
unfolding TableInfoCodec.encode ColumnInfoCodec.encode write_uint write_array write_string
catalog-HoldsRows = record {
  ready = new_buffer_manager-Ready 2 (λ _. 0) file (omega arith);
  sound = rw catalog_ids (record { given = λ p h. cc; once = tt; left = omega arith });
  ht = open_heap_file db_tables_file_id 1;
  ha = open_heap_file db_attributes_file_id 2;
  has_tables = refl;
  has_attributes = refl;
  tables = record {
    proper = omega arith;
    first = refl;
    chain =
        page-Chain 1 (appended (blank 1) (TableInfoCodec.encode table_row)) x file-Stores_tables
          (omega arith) refl (page_with-IsPageOf 1 (TableInfoCodec.encode table_row) (omega arith));
    records = refl;
  };
  attributes = record {
    proper = omega arith;
    first = refl;
    chain =
        page-Chain 2 (appended (blank 2) (ColumnInfoCodec.encode column_row)) y file-Stores_columns
          (omega arith) refl
          (page_with-IsPageOf 2 (ColumnInfoCodec.encode column_row) (omega arith));
    records = refl;
  };
  apart = (((λ s. omega (arith, s)), tt), tt);
  tables_fit = (
    record {
      table_id = refl;
      table_name = omega arith;
      heap_file_id = refl;
      first_page_id = omega arith;
    },
    tt,
  );
  columns_fit = (
    record {
      table_id = refl;
      col_name = omega arith;
      type_id = omega arith;
      ordinal_position = omega arith;
    },
    tt,
  );
}

flushed : (flush_all disk_manager catalog.bm).disk ≡ file
unfolding flush_all flush_from flush_if_dirty new_buffer_manager
flushed = refl

three_pages : get_num_pages file ≡ 3
unfolding get_num_pages
three_pages = refl

flush_all-init_catalog_example :
    (c₁ : Catalog DiskManager) × (c₂ : Catalog DiskManager) × (c₃ : Catalog DiskManager)
    × (init_catalog disk_manager 2 get_num_pages
          (λ _. 0)
          (fresh_catalog 4 (λ _. 0) (flush_all disk_manager catalog.bm).disk)
        ≡ returned (some tt) c₁)
    × (lookup_table disk_manager 2 2 0 c₁ (117 ∷ 49 ∷ [])
        ≡ returned (some (find_table (117 ∷ 49 ∷ []) (table_row ∷ []))) c₂)
    × (get_table_columns disk_manager 2 2 0 c₂ (uuid_of 9)
        ≡ returned (some (columns_of (uuid_of 9) (column_row ∷ []))) c₃)
flush_all-init_catalog_example =
    flush_all-init_catalog disk_manager keeps catalog table_pages column_pages (table_row ∷ [])
      (column_row ∷ []) catalog-HoldsRows 4 (λ _. 0) (omega arith) refl refl 2 2 0 get_num_pages
      (λ _. 0) (117 ∷ 49 ∷ []) (uuid_of 9)
      (new_buffer_manager-Holds 2 (λ _. 0) file Stores 0 header_page file-Stores_header)
      (rw (flushed, three_pages) (omega arith)) (rw (flushed, three_pages) (omega arith))
      (omega arith) (omega arith) (omega arith) (omega arith)
