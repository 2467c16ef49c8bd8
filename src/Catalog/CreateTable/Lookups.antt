-- ===== src/Catalog/CreateTable/Lookups.antt =====
-- The lookups of src/catalog/catalog.cpp after `CreateTable`.
use cpp_relational_db.Base.{
  ℕ, ◌+◌, ◌^◌, ◌<◌, ◌≡◌, ◌++◌, refl, sym, ap, ◌∙◌, subst, List, [], ◌∷◌, none, some, false,
  length-Perm, if◌then◌else◌, filter-append, filter-Perm, length, length-append, map, arith, Perm,
}
use cpp_relational_db.Storage.Bytes.{Page}
use cpp_relational_db.Storage.Disk.{IDiskManager, KeepsPages, take_id}
use cpp_relational_db.Storage.BufferManager.{returned}
use cpp_relational_db.Access.HeapFile.Chain.{Entry}
use cpp_relational_db.Catalog.Types.{TableInfo, ColumnInfo, RawColumnInfo}
use cpp_relational_db.Catalog.CatalogTables.{same_text}
use cpp_relational_db.Catalog.CatalogTables.Lookup.{All, find_table, same_text_self}
use cpp_relational_db.Catalog.CatalogTables.Inserted.{find_table-insert}
use cpp_relational_db.Catalog.Operations.{
  Catalog, column_of, create_table, lookup_table, get_table_columns,
}
use cpp_relational_db.Catalog.Extended.{TableWritable, ColumnWritable, HoldsRows}
use cpp_relational_db.Catalog.CreateTable.{new_table, new_columns, Created, create_table-Created}
use cpp_relational_db.Catalog.RowLookups.{columns_of, both_lookups}

columns_of-column_of :
    (table_id : List ℕ) (columns : List RawColumnInfo)
    → columns_of table_id (map (column_of table_id) columns) ≡ map (column_of table_id) columns
columns_of-column_of table_id [] = refl
columns_of-column_of table_id (col ∷ columns) =
    rw (same_text_self table_id)
      (ap (λ t. column_of table_id col ∷ t) (columns_of-column_of table_id columns))

-- The columns of a new table, whatever the order of the rows is.
pub columns_of_new :
    (table_id : List ℕ) (columns : List RawColumnInfo) (cols rows : List ColumnInfo)
    → columns_of table_id cols ≡ []
    → Perm rows (cols ++ new_columns table_id columns)
    → Perm (columns_of table_id rows) (new_columns table_id columns)
columns_of_new table_id columns cols rows unused perm =
    subst (Perm (columns_of table_id rows))
      (filter-append _ cols (new_columns table_id columns)
        ∙ ap (λ xs. xs ++ columns_of table_id (new_columns table_id columns)) unused
        ∙ columns_of-column_of table_id columns)
      (filter-Perm _ perm)

others_only :
    (table_id other : List ℕ) (columns : List RawColumnInfo)
    → same_text table_id other ≡ false
    → All (λ col. same_text col.table_id other ≡ false) (new_columns table_id columns)
others_only table_id other [] h = tt
others_only table_id other (col ∷ columns) h = (h, others_only table_id other columns h)

find_table_ne :
    (row : TableInfo) (name : List ℕ) (r₁ r₂ : List TableInfo)
    → same_text row.table_name name ≡ false
    → find_table name (r₁ ++ row ∷ r₂) ≡ find_table name (r₁ ++ r₂)
find_table_ne row name [] r₂ h = rw h
find_table_ne row name (r ∷ r₁) r₂ h =
    ap (λ o. if same_text r.table_name name then some r else o) (find_table_ne row name r₁ r₂ h)

module _ {D : Type 0} (dm : IDiskManager D) {Stores : D → ℕ → Page → Type 0}
    (k : KeepsPages dm Stores) (turns n heap : ℕ) (c : Catalog D) (table_id fid name : List ℕ)
    (columns : List RawColumnInfo) (pt pa : List Entry) (ts : List TableInfo)
    (cols : List ColumnInfo) (holds : HoldsRows k c pt pa ts cols)
    (left : (k.ids c.bm.disk).next + 2 + length (new_columns table_id columns) < 2 ^ 31)
    (w : TableWritable (new_table (take_id (k.ids c.bm.disk)).1 table_id fid name))
    (ws : All ColumnWritable (new_columns table_id columns)) (l : length pt + 1 < turns)
    (l' : length pa + length (new_columns table_id columns) < turns) (m : length ts + 1 < n)
    (m' : length cols + length (new_columns table_id columns) < n) where
  abbrev table : TableInfo
  table = new_table (take_id (k.ids c.bm.disk)).1 table_id fid name

  abbrev rows : List ColumnInfo
  rows = new_columns table_id columns

  -- `CreateTable`, and then both lookups.
  create_then :
      (other other_id : List ℕ)
      → (c₁ : Catalog D) × (c₂ : Catalog D) × (c₃ : Catalog D) × (create_table dm turns c table_id
            fid name columns
          ≡ returned (some table_id) c₁)
        × (i : Created dm k turns c table_id fid name columns pt pa ts cols c₁) × (lookup_table dm
              turns n heap c₁ other
            ≡ returned (some (find_table other (i.before ++ table ∷ i.behind))) c₂)
        × (get_table_columns dm turns n heap c₂ other_id
            ≡ returned (some (columns_of other_id i.rows)) c₃)
  create_then other other_id =
      let (c₁, eq, i) =
        create_table-Created dm k turns c table_id fid name columns pt pa ts cols holds left w ws
          (omega (arith, l)) (omega (arith, l')) in
      let few : length (i.before ++ table ∷ i.behind) < n = omega (
        arith,
        ap length i.split,
        length-append i.before i.behind,
        length-append i.before (table ∷ i.behind),
        m,
      ) in
      let few' : length i.rows < n =
        omega (arith, length-Perm i.perm, length-append cols rows, m') in
      let (c₂, c₃, e₂, e₃, kept) =
        both_lookups dm k c₁ i.tables_pages i.columns_pages (i.before ++ table ∷ i.behind) i.rows
          i.holds turns n heap other other_id (omega (arith, i.few_tables, l))
          (omega (arith, i.few_columns, l')) few few' in
      (c₁, c₂, c₃, eq, i, e₂, e₃)

  -- On a catalog over a valid pool and a disk that keeps pages, with an unpinned frame and room
  -- for a pin on every frame, whose heap files of tables and of columns hold the rows `ts` and
  -- `cols` on pages that they do not share, where no row has the name or the id of the new table,
  -- with rows that can be written and fit an empty page, page ids left and turns enough:
  -- `CreateTable` returns the table's id, `LookupTable` of its name then returns its row, and
  -- `GetTableColumns` of its id the columns that were given, in some order.
  pub create_table-lookup_table :
      find_table name ts ≡ none
      → columns_of table_id cols ≡ []
      → (c₁ : Catalog D) × (c₂ : Catalog D) × (c₃ : Catalog D) × (found : List ColumnInfo)
        × (create_table dm turns c table_id fid name columns ≡ returned (some table_id) c₁)
        × (lookup_table dm turns n heap c₁ name ≡ returned (some (some table)) c₂)
        × (get_table_columns dm turns n heap c₂ table_id ≡ returned (some found) c₃)
        × Perm found rows
  create_table-lookup_table missing unused =
      let (c₁, c₂, c₃, e₁, i, e₂, e₃) = create_then name table_id in
      let there : find_table name (i.before ++ table ∷ i.behind) ≡ some table =
        find_table-insert table i.before i.behind (ap (find_table name) (sym i.split) ∙ missing) in
      (
        c₁,
        c₂,
        c₃,
        columns_of table_id i.rows,
        e₁,
        e₂ ∙ ap (λ o. returned (some o) c₂) there,
        e₃,
        columns_of_new table_id columns cols i.rows unused i.perm,
      )

  -- In the same case, with no condition on the rows that are there, `CreateTable` leaves the other
  -- tables: `LookupTable` of another name returns what it would have before, and `GetTableColumns`
  -- of another id the columns that it would have before, in the same order.
  pub create_table_others :
      (other other_id : List ℕ)
      → same_text name other ≡ false
      → same_text table_id other_id ≡ false
      → (c₁ : Catalog D) × (c₂ : Catalog D) × (c₃ : Catalog D) × (create_table dm turns c table_id
            fid name columns
          ≡ returned (some table_id) c₁)
        × (lookup_table dm turns n heap c₁ other ≡ returned (some (find_table other ts)) c₂)
        × (get_table_columns dm turns n heap c₂ other_id
            ≡ returned (some (columns_of other_id cols)) c₃)
  create_table_others other other_id ne ne' =
      let (c₁, c₂, c₃, e₁, i, e₂, e₃) = create_then other other_id in
      let same : find_table other (i.before ++ table ∷ i.behind) ≡ find_table other ts =
        find_table_ne table other i.before i.behind ne ∙ ap (find_table other) (sym i.split) in
      (
        c₁,
        c₂,
        c₃,
        e₁,
        e₂ ∙ ap (λ o. returned (some o) c₂) same,
        e₃
            ∙ ap (λ cs. returned (some cs) c₃)
                (i.same_columns other_id (others_only table_id other_id columns ne')),
      )
