-- ===== src/Catalog/Operations.antt =====
-- include/catalog/catalog.h and src/catalog/catalog.cpp: the catalog of a database. The UUIDs that
-- `GenerateUUID` draws are arguments, and `num_pages` is `DiskManager::GetNumPages`. An `assert`
-- that fails ends the call. `turns` and `n` bound the loops over pages and over records.
-- `_attributes->Insert` is reached after `emplace` only, as `value()` would be.
use cpp_relational_db.Base.{
  ℕ, ◌==◌, Bool, not, ◌&&◌, List, [], ◌∷◌, Option, none, some, map, if◌then◌else◌,
}
use cpp_relational_db.Storage.Bytes.{Page, read_u32, write_u32}
use cpp_relational_db.Storage.Disk.{IDiskManager}
use cpp_relational_db.Storage.BufferManager.{
  BufferManager, Outcome, returned, thrown, frame, not_positive, request, unpin, mark_dirty,
  write_data, flush_all, bad_optional, assertion,
}
use cpp_relational_db.Access.HeapFile.{
  HeapFile, Rid, and_then, open_heap_file, init_heap_page, create, allocate,
}
use cpp_relational_db.Catalog.Types.{
  TableInfo, ColumnInfo, TypeInfo, RawColumnInfo, uuid_of, db_tables_table_id,
  db_attributes_table_id, db_types_table_id, int_type, int_size, text_type, text_size,
  tables_catalog_schema, attr_catalog_schema, types_catalog_schema,
}
use cpp_relational_db.Catalog.CatalogTables.{
  tables_codec, attributes_codec, types_codec, insert_row, lookup, get_columns,
}

-- `_dm` is the disk manager of `_bm`.
pub record Catalog (D : Type 0) : Type 0 where
  pub bm : BufferManager D
  pub tables : Option HeapFile
  pub attributes : Option HeapFile
  pub types : Option HeapFile

-- `config::DB_MAGIC`, and the constants of catalog_bootstrap.h.
abbrev pub db_magic : ℕ
db_magic = 3688618971

abbrev pub root_page_id : ℕ
root_page_id = 0

abbrev pub db_tables_root_page_id : ℕ
db_tables_root_page_id = 1

abbrev pub db_attributes_root_page_id : ℕ
db_attributes_root_page_id = 2

abbrev pub db_types_root_page_id : ℕ
db_types_root_page_id = 3

abbrev pub db_tables_file_id : List ℕ
db_tables_file_id = uuid_of 2

abbrev pub db_attributes_file_id : List ℕ
db_attributes_file_id = uuid_of 3

abbrev pub db_types_file_id : List ℕ
db_types_file_id = uuid_of 4

-- "db_tables", "db_attributes" and "db_types"
abbrev pub db_tables_table : List ℕ
db_tables_table = 100 ∷ 98 ∷ 95 ∷ 116 ∷ 97 ∷ 98 ∷ 108 ∷ 101 ∷ 115 ∷ []

abbrev pub db_attributes_table : List ℕ
db_attributes_table = 100 ∷ 98 ∷ 95 ∷ 97 ∷ 116 ∷ 116 ∷ 114 ∷ 105 ∷ 98 ∷ 117 ∷ 116 ∷ 101 ∷ 115 ∷ []

abbrev pub db_types_table : List ℕ
db_types_table = 100 ∷ 98 ∷ 95 ∷ 116 ∷ 121 ∷ 112 ∷ 101 ∷ 115 ∷ []

-- A call on the pool, as one on the catalog.
abbrev pub on_pool :
    {D A : Type 0} → Catalog D → Outcome (BufferManager D) A → Outcome (Catalog D) A
on_pool c (returned a b) = returned a (record c { bm = b })
on_pool c (thrown e b) = thrown e (record c { bm = b })

-- What follows a call that may throw or whose loop may run out of turns.
abbrev pub and_go :
    {S A B : Type 0} → Outcome S (Option A) → (A → S → Outcome S (Option B)) → Outcome S (Option B)
and_go (returned none s) k = returned none s
and_go (returned (some a) s) k = k a s
and_go (thrown e s) k = thrown e s

-- The catalog after an insertion into one of its tables, which `keep` puts back.
abbrev after_insert :
    {D : Type 0}
    → (HeapFile → BufferManager D → Catalog D)
    → Outcome (HeapFile × BufferManager D) (Option (Option Rid))
    → Outcome (Catalog D) (Option (Option Rid))
after_insert keep (returned rid s) = returned rid (keep s.0 s.1)
after_insert keep (thrown e s) = thrown e (keep s.0 s.1)

-- A use of `.value()` of one of the tables.
abbrev pub with_value :
    {D A : Type 0}
    → Catalog D
    → Option HeapFile
    → (HeapFile → Outcome (Catalog D) A)
    → Outcome (Catalog D) A
with_value c none k = thrown bad_optional c
with_value c (some hf) k = k hf

-- `_dm->GetNumPages() <= 0` is the test on an `int`.
unfoldable pub is_initialised : {D : Type 0} → IDiskManager D → (D → ℕ) → Page → D → Bool
is_initialised dm num_pages buf d =
    not (not_positive (num_pages d)) && read_u32 (dm.read_page d root_page_id buf) 0 == db_magic

-- `DBHeaderPage` in a page of zeros.
unfoldable pub header_page : Page
header_page = write_u32 (λ _. 0) 0 db_magic

unfoldable pub load_catalogs : {D : Type 0} → Catalog D → Catalog D
load_catalogs c = record c {
  tables = some (open_heap_file db_tables_file_id db_tables_root_page_id);
  attributes = some (open_heap_file db_attributes_file_id db_attributes_root_page_id);
  types = some (open_heap_file db_types_file_id db_types_root_page_id);
}

abbrev pub column_of : List ℕ → RawColumnInfo → ColumnInfo
column_of table_id col = record {
  table_id = table_id;
  col_name = col.col_name;
  type_id = col.type_id;
  ordinal_position = col.ordinal_position;
}

module _ {D : Type 0} (dm : IDiskManager D) (turns : ℕ) where
  -- `_tables.value().Insert(row)`, and the same for the other tables.
  unfoldable pub insert_table : Catalog D → TableInfo → Outcome (Catalog D) (Option (Option Rid))
  insert_table c row = with_value c c.tables (λ hf.
      after_insert (λ hf' b. record c { tables = some hf'; bm = b })
        (insert_row dm turns tables_codec hf c.bm row))

  unfoldable pub insert_attribute :
      Catalog D → ColumnInfo → Outcome (Catalog D) (Option (Option Rid))
  insert_attribute c row = with_value c c.attributes (λ hf.
      after_insert (λ hf' b. record c { attributes = some hf'; bm = b })
        (insert_row dm turns attributes_codec hf c.bm row))

  unfoldable pub insert_type : Catalog D → TypeInfo → Outcome (Catalog D) (Option (Option Rid))
  insert_type c row = with_value c c.types (λ hf.
      after_insert (λ hf' b. record c { types = some hf'; bm = b })
        (insert_row dm turns types_codec hf c.bm row))

  unfoldable pub insert_columns :
      Catalog D → List ColumnInfo → Outcome (Catalog D) (Option (Unit {0}))
  insert_columns c [] = returned (some tt) c
  insert_columns c (col ∷ cols) = and_go (insert_attribute c col) (λ _ c'. insert_columns c' cols)

  -- `InsertBuiltinTypes`; a `TypeInfo` without a name has the empty one.
  unfoldable pub insert_builtin_types : Catalog D → Outcome (Catalog D) (Option (Unit {0}))
  insert_builtin_types c =
      and_go (insert_type c (record { type_id = int_type; size = int_size; type_name = [] }))
        (λ _ c'.
          and_go (insert_type c' (record { type_id = text_type; size = text_size; type_name = [] }))
            (λ _ c''. returned (some tt) c''))

  -- A table's row in `db_tables`, and then its columns' rows in `db_attributes`.
  unfoldable pub insert_metadata :
      Catalog D → TableInfo → List ColumnInfo → Outcome (Catalog D) (Option (Unit {0}))
  insert_metadata c table cols = and_go (insert_table c table) (λ _ c'. insert_columns c' cols)

  unfoldable pub insert_catalog_metadata : Catalog D → Outcome (Catalog D) (Option (Unit {0}))
  insert_catalog_metadata c =
      let tables : TableInfo = record {
        table_id = db_tables_table_id;
        table_name = db_tables_table;
        heap_file_id = db_tables_file_id;
        first_page_id = db_tables_root_page_id;
      } in
      let attributes : TableInfo = record {
        table_id = db_attributes_table_id;
        table_name = db_attributes_table;
        heap_file_id = db_attributes_file_id;
        first_page_id = db_attributes_root_page_id;
      } in
      let types : TableInfo = record {
        table_id = db_types_table_id;
        table_name = db_types_table;
        heap_file_id = db_types_file_id;
        first_page_id = db_types_root_page_id;
      } in
      and_go (insert_metadata c tables tables_catalog_schema) (λ _ c'.
        and_go (insert_metadata c' attributes attr_catalog_schema)
          (λ _ c''. insert_metadata c'' types types_catalog_schema))

  -- `AllocatePage` with the assertion on the page that it gives.
  unfoldable pub take_page : Catalog D → ℕ → Outcome (Catalog D) (Unit {0})
  take_page c pid =
      let (b, p) = allocate dm c.bm in
      if p == pid then returned tt (record c { bm = b }) else thrown assertion (record c { bm = b })

  -- A catalog table's first page; its frame is unpinned without the policy being told.
  unfoldable pub root_page : Catalog D → ℕ → Outcome (Catalog D) (Unit {0})
  root_page c pid = and_then (take_page c pid) (λ _ c'. on_pool c' (
      and_then (request dm c'.bm pid) (λ f b.
        let written = write_data b f (init_heap_page (frame b f).bytes) in
        returned tt (unpin (mark_dirty written f) f))))

  abbrev pub write_header : Catalog D → Catalog D
  write_header c = record c {
    bm = record c.bm { disk = dm.write_page c.bm.disk root_page_id header_page };
  }

  unfoldable pub bootstrap_catalogs : Catalog D → Outcome (Catalog D) (Option (Unit {0}))
  bootstrap_catalogs c = and_then (take_page c root_page_id) (λ _ c₀.
      and_then (root_page (write_header c₀) db_tables_root_page_id) (λ _ c₁.
        and_then (root_page c₁ db_attributes_root_page_id) (λ _ c₂.
          and_then (root_page c₂ db_types_root_page_id) (λ _ c₃.
            and_go (insert_builtin_types (load_catalogs c₃)) (λ _ c₄.
              and_go (insert_catalog_metadata c₄)
                (λ _ c₅. returned (some tt) (record c₅ { bm = flush_all dm c₅.bm })))))))

  unfoldable pub init_catalog : (D → ℕ) → Page → Catalog D → Outcome (Catalog D) (Option (Unit {0}))
  init_catalog num_pages buf c =
      let fresh = bootstrap_catalogs c in
      if is_initialised dm num_pages buf c.bm.disk
      then returned (some tt) (load_catalogs c)
      else fresh

  -- `CreateTable`, with the two UUIDs that it draws.
  unfoldable pub create_table :
      Catalog D
      → List ℕ
      → List ℕ
      → List ℕ
      → List RawColumnInfo
      → Outcome (Catalog D) (Option (List ℕ))
  create_table c table_id fid table_name columns =
      and_then (on_pool c (create dm c.bm fid)) (λ hf c'.
        let table : TableInfo = record {
          table_id = table_id;
          table_name = table_name;
          heap_file_id = fid;
          first_page_id = hf.first_page_id;
        } in
        and_go (insert_metadata c' table (map (column_of table_id) columns))
          (λ _ c''. returned (some table_id) c''))

  module _ (n heap : ℕ) (c : Catalog D) where
    unfoldable pub lookup_table : List ℕ → Outcome (Catalog D) (Option (Option TableInfo))
    lookup_table table_name =
        with_value c c.tables (λ hf. on_pool c (lookup dm turns n heap hf c.bm table_name))

    unfoldable pub get_table_columns : List ℕ → Outcome (Catalog D) (Option (List ColumnInfo))
    get_table_columns table_id =
        with_value c c.attributes (λ hf. on_pool c (get_columns dm turns n heap hf c.bm table_id))
