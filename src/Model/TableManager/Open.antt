-- ===== src/Model/TableManager/Open.antt =====
-- What `TableManager::OpenTable` opens, by the rows of the catalog.
use cpp_relational_db.Base.{
  ℕ, ◌<◌, ◌≡◌, ◌∙◌, refl, ap, List, ◌∷◌, Option, none, some, map, filter, length,
}
use cpp_relational_db.Storage.Bytes.{Page}
use cpp_relational_db.Storage.Disk.{IDiskManager, KeepsPages, invalid_page_id}
use cpp_relational_db.Storage.BufferManager.{
  BufferManager, Outcome, returned, thrown, unknown_table,
}
use cpp_relational_db.Storage.BufferManager.Invariant.{Preserves}
use cpp_relational_db.Access.HeapFile.{HeapFile, open_heap_file}
use cpp_relational_db.Access.HeapFile.Visit.{Ready, Settled, Settled-Ready, Settled-trans}
use cpp_relational_db.Access.HeapFile.Chain.{Entry, head_id, Chain, Chain-Preserves}
use cpp_relational_db.Access.HeapIterator.Live.{live_records}
use cpp_relational_db.Catalog.Types.{TableInfo, ColumnInfo}
use cpp_relational_db.Catalog.TableInfoCodec
use cpp_relational_db.Catalog.ColumnInfoCodec
use cpp_relational_db.Catalog.CatalogTables.{same_text, lookup}
use cpp_relational_db.Catalog.CatalogTables.Lookup.{
  All, find_table, lookup-find_table, get_columns-filter,
}
use cpp_relational_db.Catalog.Operations.{
  with_value, on_pool, and_go, lookup_table, get_table_columns,
}
use cpp_relational_db.Model.TableManager.{
  UserTable, TableManager, on_catalog, cached_table, open_found, open_cached, open_table,
}

-- A heap file whose pages hold a chain of entries with the records `recs`, and bounds on the turns
-- of the loops over it.
pub record Holding {D : Type 0} {dm : IDiskManager D} {Stores : D → ℕ → Page → Type 0}
    (k : KeepsPages dm Stores) (turns n : ℕ) (hf : HeapFile) (b : BufferManager D)
    (recs : List (List ℕ)) : Type 0 where
  pub pages : List Entry
  pub chain : Chain k b pages invalid_page_id
  pub first : hf.first_page_id ≡ head_id pages invalid_page_id
  pub records : live_records pages ≡ recs
  pub turns_enough : length pages < turns
  pub n_enough : length recs < n

-- The user table of a row of `db_tables`, with the rows of `db_attributes`.
abbrev pub table_of : List ColumnInfo → TableInfo → UserTable
table_of cols info = record {
  hf = open_heap_file info.heap_file_id info.first_page_id;
  schema = filter (λ col. same_text col.table_id info.table_id) cols;
  table_id = info.table_id;
}

abbrev pub opened :
    {D : Type 0}
    → List ColumnInfo
    → Option TableInfo
    → TableManager D
    → Outcome (TableManager D) (Option UserTable)
opened cols none tm = thrown unknown_table tm
opened cols (some info) tm = returned (some (table_of cols info)) tm

abbrev pub cache_after :
    List ℕ
    → List ColumnInfo
    → Option TableInfo
    → List (List ℕ × UserTable)
    → List (List ℕ × UserTable)
cache_after name cols none cache = cache
cache_after name cols (some info) cache = (name, table_of cols info) ∷ cache

module _ {D : Type 0} (dm : IDiskManager D) {Stores : D → ℕ → Page → Type 0}
    (k : KeepsPages dm Stores) (turns n : ℕ) (heaps : ℕ × ℕ) where
  module _ (tm : TableManager D) (name : List ℕ) (hf ha : HeapFile)
      (tables : tm.catalog.tables ≡ some hf) (attributes : tm.catalog.attributes ≡ some ha)
      (r : Ready tm.catalog.bm) (ts : List TableInfo) (cols : List ColumnInfo)
      (fit : All TableInfoCodec.Fits ts) (fit' : All ColumnInfoCodec.Fits cols)
      (t : Holding k turns n hf tm.catalog.bm (map TableInfoCodec.encode ts))
      (a : Holding k turns n ha tm.catalog.bm (map ColumnInfoCodec.encode cols)) where
    abbrev on : BufferManager D → TableManager D
    on b = record tm { catalog = record tm.catalog { bm = b } }

    open_found_lem :
        (b : BufferManager D)
        → Settled k tm.catalog.bm b
        → Preserves Stores tm.catalog.bm b
        → (o : Option TableInfo)
        → (b' : BufferManager D) × (open_found dm turns n heaps (on b) name o
            ≡ opened cols o (record (on b') { cache = cache_after name cols o tm.cache }))
          × Settled k tm.catalog.bm b'
          × Preserves Stores tm.catalog.bm b'
    unfolding open_found get_table_columns
    open_found_lem b settled kept none = (b, refl, settled, kept)
    open_found_lem b settled kept (some info) =
        let c =
          Chain-Preserves k (λ p u. rw settled.akin.ids u) kept a.pages invalid_page_id a.chain in
        let (b', eq, (s', kept')) =
          get_columns-filter dm k turns n heaps.1 ha b a.pages (Settled-Ready k settled r) c
            a.turns_enough a.first (rw a.records a.n_enough) cols info.table_id fit' a.records in
        (b', rw (attributes, eq), Settled-trans k settled s', λ p x h. kept' p x (kept p x h))

    looked_up :
        (b : BufferManager D)
        → lookup dm turns n heaps.0 hf tm.catalog.bm name ≡ returned (some (find_table name ts)) b
        → lookup_table dm turns n heaps.0 tm.catalog name
          ≡ returned (some (find_table name ts)) (record tm.catalog { bm = b })
    unfolding lookup_table
    looked_up b eq =
        ap
          (λ o.
            with_value tm.catalog o
              (λ hf. on_pool tm.catalog (lookup dm turns n heaps.0 hf tm.catalog.bm name)))
          tables
        ∙ ap (on_pool tm.catalog) eq

    -- On a valid pool over a disk that keeps pages, with an unpinned frame and room for a pin on
    -- every frame, and catalog tables whose records that are not deleted are the encodings of the
    -- rows `ts` and `cols`, `OpenTable` of a name that is not in the cache throws when no row of
    -- `ts` has it; otherwise it returns the table of the first that has, with the columns that
    -- `cols` gives its id, and puts it into the cache. No page's contents change.
    pub open_table-find_table :
        cached_table name tm.cache ≡ none
        → (b' : BufferManager D) × (open_table dm turns n heaps tm name
            ≡ opened cols
                (find_table name ts)
                (record (on b') { cache = cache_after name cols (find_table name ts) tm.cache }))
          × Settled k tm.catalog.bm b'
          × Preserves Stores tm.catalog.bm b'
    unfolding open_table open_cached
    open_table-find_table miss =
        let (b₁, eq, (settled, kept)) =
          lookup-find_table dm k turns n heaps.0 hf tm.catalog.bm t.pages r t.chain t.turns_enough
            t.first (rw t.records t.n_enough) ts name fit t.records in
        let (b', eq', s', kept') = open_found_lem b₁ settled kept (find_table name ts) in
        (
          b',
          ap (open_cached dm turns n heaps tm name) miss
              ∙ ap
                  (λ o.
                    and_go (on_catalog tm o)
                      (λ found tm'. open_found dm turns n heaps tm' name found))
                  (looked_up b₁ eq)
              ∙ eq',
          s',
          kept',
        )
