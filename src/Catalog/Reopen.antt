-- ===== src/Catalog/Reopen.antt =====
-- A database that is flushed and opened again, by `Catalog::Init` of another process.
mod Tests
use cpp_relational_db.Base.{Option, ℕ, ◌^◌, ◌<◌, ◌≡◌, refl, List, none, some, length}
use cpp_relational_db.Storage.Bytes.{Page}
use cpp_relational_db.Storage.Disk.{IDiskManager, KeepsPages, invalid_page_id}
use cpp_relational_db.Storage.BufferManager.{returned, new_buffer_manager, flush_all}
use cpp_relational_db.Storage.BufferManager.Invariant.{Holds}
use cpp_relational_db.Storage.BufferManager.FlushAll.{flush_all_lem, flush_all-Akin}
use cpp_relational_db.Access.HeapFile.{HeapFile, open_heap_file}
use cpp_relational_db.Access.HeapFile.Chain.{Entry}
use cpp_relational_db.Access.HeapFile.Reopen.{
  new_buffer_manager-Ready, reopened_ids, Chain-reopened,
}
use cpp_relational_db.Catalog.Types.{TableInfo, ColumnInfo}
use cpp_relational_db.Catalog.CatalogTables.Lookup.{find_table}
use cpp_relational_db.Catalog.CatalogTables.Rows.{Filed}
use cpp_relational_db.Catalog.Operations.{
  db_tables_file_id, db_attributes_file_id, Catalog, root_page_id, db_tables_root_page_id,
  db_attributes_root_page_id, header_page, load_catalogs, init_catalog, lookup_table,
  get_table_columns,
}
use cpp_relational_db.Catalog.Start.{init_catalog-load_catalogs}
use cpp_relational_db.Catalog.Extended.{HoldsRows}
use cpp_relational_db.Catalog.RowLookups.{columns_of, both_lookups}

-- The catalog that the constructor makes over a new pool.
abbrev pub fresh_catalog : {D : Type 0} → ℕ → Page → D → Catalog D
fresh_catalog n fresh d = record {
  bm = new_buffer_manager n fresh d;
  tables = none;
  attributes = none;
  types = none;
}

module _ {D : Type 0} (dm : IDiskManager D) {Stores : D → ℕ → Page → Type 0}
    (k : KeepsPages dm Stores) (c : Catalog D) (pt pa : List Entry) (ts : List TableInfo)
    (cols : List ColumnInfo) (holds : HoldsRows k c pt pa ts cols) (n : ℕ) (fresh : Page)
    (pos : 0 < n)
    (tables : c.tables ≡ some (open_heap_file db_tables_file_id db_tables_root_page_id))
    (attributes : c.attributes
      ≡ some (open_heap_file db_attributes_file_id db_attributes_root_page_id)) where
  same_file : {hf hf' : HeapFile} {o : Option HeapFile} → o ≡ some hf → o ≡ some hf' → hf ≡ hf'
  same_file p q = cc

  -- The disk has what the pool holds.
  module _ (d : D) (durable : (p : ℕ) (x : Page) → Holds Stores c.bm p x → Stores d p x)
      (same : k.ids d ≡ k.ids c.bm.disk) where
    Filed-reopened :
        {A : Type 0} (encode : A → List ℕ) (hf hf' : HeapFile) (es : List Entry) (rows : List A)
        → hf ≡ hf'
        → Filed k encode hf c.bm es rows
        → Filed k encode hf' (new_buffer_manager n fresh d) es rows
    Filed-reopened encode hf hf' es rows e f = record {
      proper = rw e at f.proper;
      first = rw e at f.first;
      chain = Chain-reopened k c.bm d durable same n fresh es invalid_page_id f.chain;
      records = f.records;
    }

    pub HoldsRows-reopened : HoldsRows k (load_catalogs (fresh_catalog n fresh d)) pt pa ts cols
    unfolding load_catalogs
    HoldsRows-reopened = record {
      ready = new_buffer_manager-Ready n fresh d pos;
      sound = rw (reopened_ids k c.bm d durable same n fresh) holds.sound;
      ht = _;
      ha = _;
      has_tables = refl;
      has_attributes = refl;
      tables = Filed-reopened _ holds.ht _ pt ts (same_file holds.has_tables tables) holds.tables;
      attributes =
          Filed-reopened _ holds.ha _ pa cols (same_file holds.has_attributes attributes)
            holds.attributes;
      apart = holds.apart;
      tables_fit = holds.tables_fit;
      columns_fit = holds.columns_fit;
    }

  -- On a catalog over a valid pool and a disk that keeps pages, with an unpinned frame and room
  -- for a pin on every frame, whose heap files are the ones that `LoadCatalogs` opens and hold the
  -- rows `ts` and `cols` on pages that they do not share, and whose page 0 is the header page:
  -- after `flush_all`, over a new pool of at least one frame on the same disk, which has pages,
  -- fewer than 2 ^ 31, `Init` succeeds, `LookupTable` returns the first row of `ts` with the name,
  -- and `GetTableColumns` the rows of `cols` with the id, with turns enough for the pages and the
  -- rows.
  pub flush_all-init_catalog :
      (turns m heap : ℕ) (num_pages : D → ℕ) (buf : Page) (name table_id : List ℕ)
      → Holds Stores c.bm root_page_id header_page
      → 0 < num_pages (flush_all dm c.bm).disk
      → num_pages (flush_all dm c.bm).disk < 2 ^ 31
      → length pt < turns
      → length pa < turns
      → length ts < m
      → length cols < m
      → (c₁ : Catalog D) × (c₂ : Catalog D) × (c₃ : Catalog D) × (init_catalog dm turns num_pages
            buf
            (fresh_catalog n fresh (flush_all dm c.bm).disk)
          ≡ returned (some tt) c₁)
        × (lookup_table dm turns m heap c₁ name ≡ returned (some (find_table name ts)) c₂)
        × (get_table_columns dm turns m heap c₂ table_id
            ≡ returned (some (columns_of table_id cols)) c₃)
  unfolding new_buffer_manager
  flush_all-init_catalog turns m heap num_pages buf name table_id header some_pages few l l' q q' =
      let d = (flush_all dm c.bm).disk in
      let v = holds.ready.valid in
      let durable = (flush_all_lem dm k c.bm v).2 in
      let holds' = HoldsRows-reopened d durable (flush_all-Akin dm k c.bm v).ids in
      let (c₂, c₃, e₂, e₃, kept) =
        both_lookups dm k (load_catalogs (fresh_catalog n fresh d)) pt pa ts cols holds' turns m
          heap name table_id l l' q q' in
      (
        load_catalogs (fresh_catalog n fresh d),
        c₂,
        c₃,
        init_catalog-load_catalogs dm k num_pages buf turns (fresh_catalog n fresh d)
            (durable root_page_id header_page header) some_pages few,
        e₂,
        e₃,
      )
