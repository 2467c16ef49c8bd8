-- ===== src/Model/TableManager/Created.antt =====
-- `TableManager::CreateTable` of src/model/table_manager.cpp, and then `OpenTable`.
mod Tests
use cpp_relational_db.Base.{
  ℕ, ◌+◌, ◌^◌, ◌<◌, ◌≡◌, ◌++◌, refl, sym, ap, ◌∙◌, List, [], ◌∷◌, Option, none, some, map, length,
  length-append, length-map_le, length-Perm, arith, Perm,
}
use cpp_relational_db.Storage.Bytes.{Page}
use cpp_relational_db.Storage.Disk.{IDiskManager, KeepsPages, take_id, invalid_page_id}
use cpp_relational_db.Storage.BufferManager.{BufferManager, returned}
use cpp_relational_db.Access.HeapFile.{HeapFile, open_heap_file}
use cpp_relational_db.Access.HeapFile.Visit.{Ready, Settled-Ready}
use cpp_relational_db.Access.HeapFile.Chain.{Entry, Chain, Chain-Preserves}
use cpp_relational_db.Access.HeapFile.Shape.{blank}
use cpp_relational_db.Catalog.Types.{TableInfo, ColumnInfo, RawColumnInfo}
use cpp_relational_db.Catalog.CatalogTables.Lookup.{All, find_table}
use cpp_relational_db.Catalog.CatalogTables.Inserted.{find_table-insert}
use cpp_relational_db.Catalog.CatalogTables.Rows.{Filed}
use cpp_relational_db.Catalog.Extended.{TableWritable, ColumnWritable, HoldsRows}
use cpp_relational_db.Catalog.RowLookups.{columns_of}
use cpp_relational_db.Catalog.CreateTable.{new_table, new_columns, create_table-Created}
use cpp_relational_db.Catalog.CreateTable.Lookups.{columns_of_new}
use cpp_relational_db.Model.TableManager.{
  UserTable, TableManager, cached_table, create_user_table, open_table,
}
use cpp_relational_db.Model.TableManager.Open.{
  Holding, table_of, opened, cache_after, open_table-find_table,
}

module _ {D : Type 0} (dm : IDiskManager D) {Stores : D → ℕ → Page → Type 0}
    (k : KeepsPages dm Stores) (turns n : ℕ) (heaps : ℕ × ℕ) (tm : TableManager D)
    (table_id fid name : List ℕ) (columns : List RawColumnInfo) (pt pa : List Entry)
    (ts : List TableInfo) (cols : List ColumnInfo) (holds : HoldsRows k tm.catalog pt pa ts cols)
    (left : (k.ids tm.catalog.bm.disk).next + 2 + length (new_columns table_id columns) < 2 ^ 31)
    (w : TableWritable (new_table (take_id (k.ids tm.catalog.bm.disk)).1 table_id fid name))
    (ws : All ColumnWritable (new_columns table_id columns)) (l : length pt + 1 < turns)
    (l' : length pa + length (new_columns table_id columns) < turns) (m : length ts + 1 < n)
    (m' : length cols + length (new_columns table_id columns) < n) where
  -- The id of the new table's first page.
  abbrev page_id : ℕ
  page_id = (take_id (k.ids tm.catalog.bm.disk)).1

  Holding-Filed :
      {A : Type 0} (encode : A → List ℕ) (hf : HeapFile) (b : BufferManager D) (es : List Entry)
      (rows : List A)
      → Filed k encode hf b es rows
      → length es < turns
      → length rows < n
      → Holding k turns n hf b (map encode rows)
  Holding-Filed encode hf b es rows f q q' = record {
    pages = es;
    chain = f.chain;
    first = f.first;
    records = f.records;
    turns_enough = q;
    n_enough = omega (arith, length-map_le encode rows, q');
  }

  -- Where the pool of a table manager is valid over a disk that keeps pages, has an unpinned frame
  -- and room for pins, and the heap files of the catalog hold the tables `ts` and the columns `cols`
  -- on pages that they do not share, and ids are left, the rows of the new table and of its columns
  -- fit their fields and a page, the loops have turns for the pages and the rows, the name is not in
  -- the cache, and no table has the name and no column the id: `CreateTable` returns the id, and
  -- `OpenTable` of the name then returns a table with that id, with the given columns in some order
  -- as its schema, and with a heap file whose chain is one empty page; the table is the newest in
  -- the cache, and the pool still has an unpinned frame and room for pins.
  pub create_user_table-open_table :
      cached_table name tm.cache ≡ none
      → find_table name ts ≡ none
      → columns_of table_id cols ≡ []
      → (tm₁ : TableManager D) × (tm₂ : TableManager D) × (table : UserTable) × (create_user_table
            dm turns tm table_id fid name columns
          ≡ returned (some table_id) tm₁)
        × (open_table dm turns n heaps tm₁ name ≡ returned (some table) tm₂)
        × (table.table_id ≡ table_id)
        × Perm table.schema (new_columns table_id columns)
        × (table.hf ≡ open_heap_file fid page_id)
        × Chain k tm₂.catalog.bm (blank page_id ∷ []) invalid_page_id
        × Ready tm₂.catalog.bm
        × (tm₂.cache ≡ (name, table) ∷ tm.cache)
  unfolding create_user_table
  create_user_table-open_table miss missing unused =
      let new = new_columns table_id columns in
      let row = new_table page_id table_id fid name in
      let (c₁, e₁, i) =
        create_table-Created dm k turns tm.catalog table_id fid name columns pt pa ts cols holds
          left w ws (omega (arith, l)) (omega (arith, l')) in
      let tm₁ : TableManager D = record tm { catalog = c₁ } in
      let all = i.before ++ row ∷ i.behind in
      let few : length all < n = omega (
        arith,
        ap length i.split,
        length-append i.before i.behind,
        length-append i.before (row ∷ i.behind),
        m,
      ) in
      let few' : length i.rows < n =
        omega (arith, length-Perm i.perm, length-append cols new, m') in
      let h = i.holds in
      let there : find_table name all ≡ some row =
        find_table-insert row i.before i.behind (ap (find_table name) (sym i.split) ∙ missing) in
      let (b₂, e₂, settled, kept) =
        open_table-find_table dm k turns n heaps tm₁ name h.ht h.ha h.has_tables h.has_attributes
          h.ready all i.rows h.tables_fit h.columns_fit
          (Holding-Filed _ h.ht c₁.bm i.tables_pages all h.tables (omega (arith, i.few_tables, l))
            few)
          (Holding-Filed _ h.ha c₁.bm i.columns_pages i.rows h.attributes
            (omega (arith, i.few_columns, l')) few')
          miss in
      let tm₂ : Option TableInfo → TableManager D = λ o. record {
        cache = cache_after name i.rows o tm.cache;
        catalog = record c₁ { bm = b₂ };
      } in
      (
        tm₁,
        tm₂ (some row),
        table_of i.rows row,
        rw e₁,
        e₂ ∙ ap (λ o. opened i.rows o (tm₂ o)) there,
        refl,
        columns_of_new table_id columns cols i.rows unused i.perm,
        refl,
        Chain-Preserves k (λ p u. rw settled.akin.ids u) kept (blank page_id ∷ []) invalid_page_id
            i.empty,
        Settled-Ready k settled h.ready,
        refl,
      )
