-- ===== src/Catalog/RowLookups.antt =====
-- The lookups of src/catalog/catalog.cpp on a catalog whose tables hold rows.
use cpp_relational_db.Base.{ℕ, ◌<◌, ◌≡◌, ap, List, some, filter, length, length-map_le, arith}
use cpp_relational_db.Storage.Bytes.{Page}
use cpp_relational_db.Storage.Disk.{IDiskManager, KeepsPages, invalid_page_id}
use cpp_relational_db.Storage.BufferManager.{BufferManager, returned}
use cpp_relational_db.Storage.BufferManager.Invariant.{Preserves}
use cpp_relational_db.Access.HeapFile.{HeapFile}
use cpp_relational_db.Access.HeapFile.Visit.{Settled-Ready}
use cpp_relational_db.Access.HeapFile.Chain.{Entry, Chain-Preserves}
use cpp_relational_db.Access.HeapIterator.Live.{live_records}
use cpp_relational_db.Catalog.Types.{TableInfo, ColumnInfo}
use cpp_relational_db.Catalog.TableInfoCodec
use cpp_relational_db.Catalog.ColumnInfoCodec
use cpp_relational_db.Catalog.CatalogTables.{same_text}
use cpp_relational_db.Catalog.CatalogTables.Lookup.{
  find_table, Unchanged, lookup-find_table, get_columns-filter,
}
use cpp_relational_db.Catalog.CatalogTables.Rows.{Filed}
use cpp_relational_db.Catalog.Operations.{Catalog, lookup_table, get_table_columns}
use cpp_relational_db.Catalog.Extended.{HoldsRows}

-- The columns of a table, among the rows of `db_attributes`.
abbrev pub columns_of : List ℕ → List ColumnInfo → List ColumnInfo
columns_of table_id rows = filter (λ col. same_text col.table_id table_id) rows

module _ {D : Type 0} (dm : IDiskManager D) {Stores : D → ℕ → Page → Type 0}
    (k : KeepsPages dm Stores) where
  module _ (c : Catalog D) (pt pa : List Entry) (ts : List TableInfo) (cols : List ColumnInfo)
      (holds : HoldsRows k c pt pa ts cols) where
    pub Filed-Unchanged :
        {A : Type 0} (encode : A → List ℕ) (b' : BufferManager D)
        → Unchanged k c.bm b'
        → (hf : HeapFile) (es : List Entry) (rows : List A) → Filed k encode hf c.bm es rows
        → Filed k encode hf b' es rows
    Filed-Unchanged encode b' (settled, kept) hf es rows f = record {
      proper = f.proper;
      first = f.first;
      chain = Chain-Preserves k (λ p u. rw settled.akin.ids u) kept es invalid_page_id f.chain;
      records = f.records;
    }

    pub HoldsRows-Unchanged :
        (b' : BufferManager D)
        → Unchanged k c.bm b'
        → HoldsRows k (record c { bm = b' }) pt pa ts cols
    HoldsRows-Unchanged b' u = record {
      ready = Settled-Ready k u.0 holds.ready;
      sound = rw u.0.akin.ids holds.sound;
      ht = holds.ht;
      ha = holds.ha;
      has_tables = holds.has_tables;
      has_attributes = holds.has_attributes;
      tables = Filed-Unchanged _ b' u holds.ht pt ts holds.tables;
      attributes = Filed-Unchanged _ b' u holds.ha pa cols holds.attributes;
      apart = holds.apart;
      tables_fit = holds.tables_fit;
      columns_fit = holds.columns_fit;
    }

    -- `LookupTable` returns the first row of the name, or nothing.
    pub lookup_table-find_table :
        (turns n heap : ℕ) (name : List ℕ)
        → length pt < turns
        → length ts < n
        → (b' : BufferManager D) × (lookup_table dm turns n heap c name
            ≡ returned (some (find_table name ts)) (record c { bm = b' }))
          × Unchanged k c.bm b'
    unfolding lookup_table
    lookup_table-find_table turns n heap name l m =
        let t = holds.tables in
        let few : length (live_records pt) < n =
          omega (arith, ap length t.records, length-map_le TableInfoCodec.encode ts, m) in
        let (b', eq, u) =
          lookup-find_table dm k turns n heap holds.ht c.bm pt holds.ready t.chain l t.first few ts
            name holds.tables_fit t.records in
        (b', rw (holds.has_tables, eq), u)

    -- `GetTableColumns` returns the rows of the table.
    pub get_table_columns-columns_of :
        (turns n heap : ℕ) (table_id : List ℕ)
        → length pa < turns
        → length cols < n
        → (b' : BufferManager D) × (get_table_columns dm turns n heap c table_id
            ≡ returned (some (columns_of table_id cols)) (record c { bm = b' }))
          × Unchanged k c.bm b'
    unfolding get_table_columns
    get_table_columns-columns_of turns n heap table_id l m =
        let a = holds.attributes in
        let few : length (live_records pa) < n =
          omega (arith, ap length a.records, length-map_le ColumnInfoCodec.encode cols, m) in
        let (b', eq, u) =
          get_columns-filter dm k turns n heap holds.ha c.bm pa holds.ready a.chain l a.first few
            cols table_id holds.columns_fit a.records in
        (b', rw (holds.has_attributes, eq), u)

  -- `LookupTable` and then `GetTableColumns`.
  pub both_lookups :
      (c : Catalog D) (pt pa : List Entry) (ts : List TableInfo) (cols : List ColumnInfo)
      → HoldsRows k c pt pa ts cols
      → (turns n heap : ℕ) (name table_id : List ℕ) → length pt < turns
      → length pa < turns
      → length ts < n
      → length cols < n
      → (c₁ : Catalog D) × (c₂ : Catalog D) × (lookup_table dm turns n heap c name
          ≡ returned (some (find_table name ts)) c₁)
        × (get_table_columns dm turns n heap c₁ table_id
            ≡ returned (some (columns_of table_id cols)) c₂)
        × Preserves Stores c.bm c₂.bm
  both_lookups c pt pa ts cols holds turns n heap name table_id l l' m m' =
      let (b₁, eq, u) = lookup_table-find_table c pt pa ts cols holds turns n heap name l m in
      let (b₂, eq', v) =
        get_table_columns-columns_of (record c { bm = b₁ }) pt pa ts cols
          (HoldsRows-Unchanged c pt pa ts cols holds b₁ u) turns n heap table_id l' m' in
      (record c { bm = b₁ }, record c { bm = b₂ }, eq, eq', λ p x h. v.1 p x (u.1 p x h))
