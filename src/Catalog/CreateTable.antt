-- ===== src/Catalog/CreateTable.antt =====
-- `Catalog::CreateTable` of src/catalog/catalog.cpp, by the rows that the catalog's tables hold.
pub mod Lookups
pub mod OneTable
mod Tests
use cpp_relational_db.Base.{
  subst, ℕ, ◌+◌, ◌^◌, ◌<◌, ◌≤◌, ◌≡◌, ◌++◌, refl, List, [], ◌∷◌, some, length, map, arith, Perm,
}
use cpp_relational_db.Storage.Bytes.{Page}
use cpp_relational_db.Storage.Disk.{IDiskManager, KeepsPages, invalid_page_id, take_id}
use cpp_relational_db.Storage.BufferManager.{BufferManager, returned}
use cpp_relational_db.Access.HeapFile.{HeapFile}
use cpp_relational_db.Access.HeapFile.Ids.{take_id-Fresh}
use cpp_relational_db.Access.HeapFile.Chain.{Entry, Chain, Chain-Away, Node-kept}
use cpp_relational_db.Access.HeapFile.Apart.{Apart-nil, Chain-beside}
use cpp_relational_db.Access.HeapFile.Shape.{blank}
use cpp_relational_db.Access.HeapFile.Insert.{Inserted}
use cpp_relational_db.Access.HeapFile.Create.{create-Inserted}
use cpp_relational_db.Catalog.Types.{TableInfo, ColumnInfo, RawColumnInfo}
use cpp_relational_db.Catalog.CatalogTables.Lookup.{All}
use cpp_relational_db.Catalog.CatalogTables.Rows.{Filed}
use cpp_relational_db.Catalog.Operations.{Catalog, column_of, create_table}
use cpp_relational_db.Catalog.Extended.{
  TableWritable, ColumnWritable, HoldsRows, Extended, Extended-trans,
}
use cpp_relational_db.Catalog.InsertMetadata.{SameColumns, insert_metadata-HoldsRows}

-- The row of a new table, by its first page, and its columns' rows.
abbrev pub new_table : ℕ → List ℕ → List ℕ → List ℕ → TableInfo
new_table id table_id fid name = record {
  table_id = table_id;
  table_name = name;
  heap_file_id = fid;
  first_page_id = id;
}

abbrev pub new_columns : List ℕ → List RawColumnInfo → List ColumnInfo
new_columns table_id columns = map (column_of table_id) columns

module _ {D : Type 0} (dm : IDiskManager D) {Stores : D → ℕ → Page → Type 0}
    (k : KeepsPages dm Stores) where
  module _ (c : Catalog D) (pt pa : List Entry) (ts : List TableInfo) (cols : List ColumnInfo)
      (holds : HoldsRows k c pt pa ts cols) where
    Filed-beside :
        {A : Type 0} (encode : A → List ℕ) (fs : List Entry) (b' : BufferManager D)
        → Inserted dm k 1 c.bm [] fs b'
        → (hf : HeapFile) (es : List Entry) (rows : List A) → Filed k encode hf c.bm es rows
        → Filed k encode hf b' es rows
    Filed-beside encode fs b' i hf es rows f = record {
      proper = f.proper;
      first = f.first;
      chain =
          Chain-beside k c.bm b' es [] invalid_page_id i.grown.more i.others f.chain (Apart-nil es);
      records = f.records;
    }

    -- A new chain beside the catalog's leaves them.
    HoldsRows-beside :
        (fs : List Entry) (b' : BufferManager D)
        → (k.ids c.bm.disk).next + 1 < 2 ^ 31
        → Inserted dm k 1 c.bm [] fs b'
        → HoldsRows k (record c { bm = b' }) pt pa ts cols
          × Extended k 1 c pt pa (record c { bm = b' }) pt pa
    HoldsRows-beside fs b' left i = (
      record {
        ready = i.ready;
        sound = i.grown.sound holds.sound left;
        ht = holds.ht;
        ha = holds.ha;
        has_tables = holds.has_tables;
        has_attributes = holds.has_attributes;
        tables = Filed-beside _ fs b' i holds.ht pt ts holds.tables;
        attributes = Filed-beside _ fs b' i holds.ha pa cols holds.attributes;
        apart = holds.apart;
        tables_fit = holds.tables_fit;
        columns_fit = holds.columns_fit;
      },
      record {
        tables = refl;
        attributes = refl;
        types = refl;
        grown = i.grown;
        pins = i.pins;
        others = λ p z u v w h. i.others p z u tt h;
        own = λ p u v w. (v, w);
      },
    )

  module _ (turns : ℕ) (c : Catalog D) (table_id fid name : List ℕ)
      (columns : List RawColumnInfo) where
    -- The id of the table's first page.
    abbrev new_id : ℕ
    new_id = (take_id (k.ids c.bm.disk)).1

    abbrev table : TableInfo
    table = new_table new_id table_id fid name

    abbrev new : List ColumnInfo
    new = new_columns table_id columns

    -- The catalog after the call: the table's row is among the others, the columns' rows are with
    -- the others in some order, and the table's heap file is one empty page.
    pub record Created (pt pa : List Entry) (ts : List TableInfo) (cols : List ColumnInfo)
        (c' : Catalog D) : Type 0 where
      pub tables_pages : List Entry
      pub columns_pages : List Entry
      pub before : List TableInfo
      pub behind : List TableInfo
      pub rows : List ColumnInfo
      pub split : ts ≡ before ++ behind
      pub perm : Perm rows (cols ++ new)
      pub holds : HoldsRows k c' tables_pages columns_pages (before ++ table ∷ behind) rows
      pub extended : Extended k (2 + length new) c pt pa c' tables_pages columns_pages
      pub empty : Chain k c'.bm (blank new_id ∷ []) invalid_page_id
      pub few_tables : length tables_pages ≤ length pt + 1
      pub few_columns : length columns_pages ≤ length pa + length new
      pub same_columns : SameColumns new cols rows

    -- On a catalog whose pool is valid, over a disk that keeps pages, with an unpinned frame and
    -- room for a pin on every frame, whose heap files of tables and of columns hold the rows `ts` and
    -- `cols` on pages that they do not share: `CreateTable` with a name and columns whose rows can
    -- be written and fit an empty page, with page ids left and turns for the loops over the pages,
    -- returns the table's id. It leaves the table's row among `ts` and the columns' rows
    -- with `cols`, in some order, a heap file of one empty page for the table, and every other page
    -- in use as it was.
    pub create_table-Created :
        (pt pa : List Entry) (ts : List TableInfo) (cols : List ColumnInfo)
        → HoldsRows k c pt pa ts cols
        → (k.ids c.bm.disk).next + 2 + length new < 2 ^ 31
        → TableWritable table
        → All ColumnWritable new
        → length pt < turns
        → length pa + length new ≤ turns
        → (c' : Catalog D) × (create_table dm turns c table_id fid name columns
            ≡ returned (some table_id) c')
          × Created pt pa ts cols c'
    unfolding create_table
    create_table-Created pt pa ts cols holds left w ws l l' =
        let (b₁, e₁, i) = create-Inserted dm k c.bm holds.ready holds.sound fid in
        let c₁ = record c { bm = b₁ } in
        let (holds₁, x) =
          HoldsRows-beside c pt pa ts cols holds (blank new_id ∷ []) b₁ (omega (arith, left)) i in
        let (c₂, pt', pa', before, behind, rows, e₂, split, holds₂, y, perm, few, few', same) =
          insert_metadata-HoldsRows dm k turns table new c₁ pt pa ts cols holds₁
            (omega (arith, left, x.grown.next)) w ws l l' in
        let unused = (take_id-Fresh (k.ids c.bm.disk) holds.sound).unused in
        let away = Chain-Away k c.bm new_id pt invalid_page_id unused holds.tables.chain in
        let away' = Chain-Away k c.bm new_id pa invalid_page_id unused holds.attributes.chain in
        let node = i.chain.0 in
        (
          c₂,
          rw (e₁, e₂),
          record {
            tables_pages = pt';
            columns_pages = pa';
            before = before;
            behind = behind;
            rows = rows;
            split = split;
            perm = perm;
            holds = holds₂;
            extended =
                subst (λ n. Extended k n c pt pa c₂ pt' pa') (omega arith) (Extended-trans k x y);
            empty = (
              Node-kept k y.grown.more (λ z h. y.others new_id z node.used away away' h) node,
              tt,
              tt,
            );
            few_tables = few;
            few_columns = few';
            same_columns = same;
          },
        )
