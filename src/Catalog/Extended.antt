-- ===== src/Catalog/Extended.antt =====
-- The rows of a catalog's tables and of their columns, and what the insertions of
-- src/catalog/catalog.cpp leave of the rest of the database.
use cpp_relational_db.Base.{
  sym, ℕ, ◌+◌, ◌^◌, ◌<◌, ◌≤◌, ◌≡◌, ◌++◌, refl, ◌∙◌, subst, List, ◌∷◌, some, length,
}
use cpp_relational_db.Storage.Bytes.{Page}
use cpp_relational_db.Storage.Disk.{IDiskManager, KeepsPages, invalid_page_id}
use cpp_relational_db.Storage.SlottedPage.{size_of_slot}
use cpp_relational_db.Storage.BufferManager.{returned, frame}
use cpp_relational_db.Storage.BufferManager.Invariant.{Holds}
use cpp_relational_db.Access.HeapFile.{HeapFile, Rid}
use cpp_relational_db.Access.HeapFile.Ids.{IsSound, InUse, Grown, Grown-refl, Grown-trans}
use cpp_relational_db.Access.HeapFile.Visit.{Ready}
use cpp_relational_db.Access.HeapFile.Chain.{Entry, Away}
use cpp_relational_db.Access.HeapFile.Apart.{Apart, Apart-sym, Chain-Apart, Chain-beside}
use cpp_relational_db.Catalog.Types.{TableInfo, ColumnInfo}
use cpp_relational_db.Catalog.TableInfoCodec
use cpp_relational_db.Catalog.ColumnInfoCodec
use cpp_relational_db.Catalog.CatalogTables.{tables_codec, attributes_codec}
use cpp_relational_db.Catalog.CatalogTables.Lookup.{All}
use cpp_relational_db.Catalog.CatalogTables.Rows.{All-insert, Filed, insert_row-RowInserted}
use cpp_relational_db.Catalog.Operations.{Catalog, insert_table, insert_attribute}

-- A row that its codec can write and read, and that fits an empty page.
abbrev pub TableWritable : TableInfo → Type 0
TableWritable row =
    TableInfoCodec.Fits row × (length (TableInfoCodec.encode row) + size_of_slot ≤ 8180)

abbrev pub ColumnWritable : ColumnInfo → Type 0
ColumnWritable row =
    ColumnInfoCodec.Fits row × (length (ColumnInfoCodec.encode row) + size_of_slot ≤ 8180)

module _ {D : Type 0} {dm : IDiskManager D} {Stores : D → ℕ → Page → Type 0}
    (k : KeepsPages dm Stores) where
  -- The catalog's pool can serve requests, and the heap files of `db_tables` and `db_attributes`
  -- hold the rows `ts` and `cols`, on pages that they do not share.
  pub record HoldsRows (c : Catalog D) (pt pa : List Entry) (ts : List TableInfo)
      (cols : List ColumnInfo) : Type 0 where
    pub ready : Ready c.bm
    pub sound : IsSound (k.ids c.bm.disk)
    pub ht : HeapFile
    pub ha : HeapFile
    pub has_tables : c.tables ≡ some ht
    pub has_attributes : c.attributes ≡ some ha
    pub tables : Filed k TableInfoCodec.encode ht c.bm pt ts
    pub attributes : Filed k ColumnInfoCodec.encode ha c.bm pa cols
    pub apart : Apart pt pa
    pub tables_fit : All TableInfoCodec.Fits ts
    pub columns_fit : All ColumnInfoCodec.Fits cols

  -- The catalog's heap files are the same; at most `n` page ids were given out, every page in use
  -- outside of the two heap files keeps its contents and stays outside of them, and every frame
  -- keeps its pins.
  pub record Extended (n : ℕ) (c : Catalog D) (pt pa : List Entry) (c' : Catalog D)
      (pt' pa' : List Entry) : Type 0 where
    pub tables : c'.tables ≡ c.tables
    pub attributes : c'.attributes ≡ c.attributes
    pub types : c'.types ≡ c.types
    pub grown : Grown n (k.ids c.bm.disk) (k.ids c'.bm.disk)
    pub pins : (g : ℕ) → (frame c'.bm g).pin_count ≡ (frame c.bm g).pin_count
    pub others :
        (p : ℕ) (z : Page)
        → InUse (k.ids c.bm.disk) p
        → Away p pt
        → Away p pa
        → Holds Stores c.bm p z
        → Holds Stores c'.bm p z
    pub own : (p : ℕ) → InUse (k.ids c.bm.disk) p → Away p pt → Away p pa → Away p pt' × Away p pa'

  pub Extended-refl : {c : Catalog D} {pt pa : List Entry} → Extended 0 c pt pa c pt pa
  Extended-refl = record {
    tables = refl;
    attributes = refl;
    types = refl;
    grown = Grown-refl;
    pins = λ g. refl;
    others = λ p z u v w h. h;
    own = λ p u v w. (v, w);
  }

  pub Extended-trans :
      {m n : ℕ} {c c' c'' : Catalog D} {pt pa pt' pa' pt'' pa'' : List Entry}
      → Extended m c pt pa c' pt' pa'
      → Extended n c' pt' pa' c'' pt'' pa''
      → Extended (m + n) c pt pa c'' pt'' pa''
  Extended-trans x y = record {
    tables = y.tables ∙ x.tables;
    attributes = y.attributes ∙ x.attributes;
    types = y.types ∙ x.types;
    grown = Grown-trans x.grown y.grown;
    pins = λ g. y.pins g ∙ x.pins g;
    others = λ p z u v w h.
        let (v', w') = x.own p u v w in
        y.others p z (x.grown.more p u) v' w' (x.others p z u v w h);
    own = λ p u v w. let (v', w') = x.own p u v w in y.own p (x.grown.more p u) v' w';
  }

module _ {D : Type 0} (dm : IDiskManager D) {Stores : D → ℕ → Page → Type 0}
    (k : KeepsPages dm Stores) (turns : ℕ) (c : Catalog D) (pt pa : List Entry)
    (ts : List TableInfo) (cols : List ColumnInfo) (holds : HoldsRows k c pt pa ts cols)
    (left : (k.ids c.bm.disk).next + 1 < 2 ^ 31) where
  -- A table's row is inserted among the others.
  pub insert_table-HoldsRows :
      (row : TableInfo)
      → TableWritable row
      → length pt < turns
      → (rid : Rid) × (c' : Catalog D) × (pt' : List Entry) × (before : List TableInfo)
        × (behind : List TableInfo) × (insert_table dm turns c row ≡ returned (some (some rid)) c')
        × (ts ≡ before ++ behind)
        × HoldsRows k c' pt' pa (before ++ row ∷ behind) cols
        × Extended k 1 c pt pa c' pt' pa
        × (length pt' ≤ length pt + 1)
  unfolding insert_table
  insert_table-HoldsRows row (fit, small) l =
      let (rid, b', eq, i) =
        insert_row-RowInserted dm k turns tables_codec holds.ht c.bm pt ts row holds.ready
          holds.sound holds.tables l (TableInfoCodec.encode_nonempty row) small in
      let h = holds.attributes in
      let j = i.inserted in
      let apart = Apart-sym pt pa holds.apart in
      (
        rid,
        record c { tables = some holds.ht; bm = b' },
        i.pages,
        i.before,
        i.behind,
        rw (holds.has_tables, eq),
        i.split,
        record {
          ready = j.ready;
          sound = j.grown.sound holds.sound left;
          ht = holds.ht;
          ha = holds.ha;
          has_tables = refl;
          has_attributes = holds.has_attributes;
          tables = i.filed;
          attributes = record {
            proper = h.proper;
            first = h.first;
            chain =
                Chain-beside k c.bm b' pa pt invalid_page_id j.grown.more j.others h.chain apart;
            records = h.records;
          };
          apart =
              Apart-sym pa i.pages
                (Chain-Apart k c.bm pa pt i.pages invalid_page_id j.own h.chain apart);
          tables_fit =
              All-insert TableInfoCodec.Fits i.before i.behind fit
                (subst (All TableInfoCodec.Fits) i.split holds.tables_fit);
          columns_fit = holds.columns_fit;
        },
        record {
          tables = sym holds.has_tables;
          attributes = refl;
          types = refl;
          grown = j.grown;
          pins = j.pins;
          others = λ p z u v w held. j.others p z u v held;
          own = λ p u v w. (j.own p u v, w);
        },
        i.few,
      )

  -- A column's row is inserted among the others.
  pub insert_attribute-HoldsRows :
      (row : ColumnInfo)
      → ColumnWritable row
      → length pa < turns
      → (rid : Rid) × (c' : Catalog D) × (pa' : List Entry) × (before : List ColumnInfo)
        × (behind : List ColumnInfo) × (insert_attribute dm turns c row
            ≡ returned (some (some rid)) c')
        × (cols ≡ before ++ behind)
        × HoldsRows k c' pt pa' ts (before ++ row ∷ behind)
        × Extended k 1 c pt pa c' pt pa'
        × (length pa' ≤ length pa + 1)
  unfolding insert_attribute
  insert_attribute-HoldsRows row (fit, small) l =
      let (rid, b', eq, i) =
        insert_row-RowInserted dm k turns attributes_codec holds.ha c.bm pa cols row holds.ready
          holds.sound holds.attributes l (ColumnInfoCodec.encode_nonempty row) small in
      let h = holds.tables in
      let j = i.inserted in
      (
        rid,
        record c { attributes = some holds.ha; bm = b' },
        i.pages,
        i.before,
        i.behind,
        rw (holds.has_attributes, eq),
        i.split,
        record {
          ready = j.ready;
          sound = j.grown.sound holds.sound left;
          ht = holds.ht;
          ha = holds.ha;
          has_tables = holds.has_tables;
          has_attributes = refl;
          tables = record {
            proper = h.proper;
            first = h.first;
            chain =
                Chain-beside k c.bm b' pt pa invalid_page_id j.grown.more j.others h.chain
                  holds.apart;
            records = h.records;
          };
          attributes = i.filed;
          apart = Chain-Apart k c.bm pt pa i.pages invalid_page_id j.own h.chain holds.apart;
          tables_fit = holds.tables_fit;
          columns_fit =
              All-insert ColumnInfoCodec.Fits i.before i.behind fit
                (subst (All ColumnInfoCodec.Fits) i.split holds.columns_fit);
        },
        record {
          tables = refl;
          attributes = sym holds.has_attributes;
          types = refl;
          grown = j.grown;
          pins = j.pins;
          others = λ p z u v w held. j.others p z u w held;
          own = λ p u v w. (v, j.own p u w);
        },
        i.few,
      )
