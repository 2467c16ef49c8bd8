-- ===== src/Catalog/Bootstrap/Lookups.antt =====
-- A bootstrapped database, opened again: `Catalog::LookupTable` and `GetTableColumns` of
-- src/catalog/catalog.cpp on the catalog's own tables.
use mathlib.Core.Logic.{∥∥₁_elim}
use cpp_relational_db.Base.{
  ℕ, ◌<◌, ◌≤◌, ◌≡◌, inl, inr, refl, ap, ◌∙◌, List, [], ◌∷◌, Option, none, some, filter, filter-Perm,
  length-Perm, singleton_Permᴰ, Bool-cases, arith, Perm,
}
use cpp_relational_db.Storage.Bytes.{Page}
use cpp_relational_db.Storage.Disk.{IDiskManager, KeepsPages}
use cpp_relational_db.Storage.BufferManager.{returned}
use cpp_relational_db.Access.HeapFile.Visit.{Ready}
use cpp_relational_db.Catalog.Types.{TableInfo, ColumnInfo}
use cpp_relational_db.Catalog.CatalogTables.{same_text}
use cpp_relational_db.Catalog.CatalogTables.Lookup.{find_table}
use cpp_relational_db.Catalog.Operations.{
  Catalog, root_page_id, header_page, load_catalogs, bootstrap_catalogs, lookup_table,
  get_table_columns,
}
use cpp_relational_db.Catalog.RowLookups.{columns_of, both_lookups}
use cpp_relational_db.Catalog.Reopen.{fresh_catalog, HoldsRows-reopened}
use cpp_relational_db.Catalog.Bootstrap.{bootstrap_catalogs-Bootstrapped}
use cpp_relational_db.Catalog.Bootstrap.Pages.{below}
use cpp_relational_db.Catalog.Bootstrap.Rows.{tables_row, attributes_row, types_row}
use cpp_relational_db.Catalog.Bootstrap.Fill.{catalog_columns}

-- The rows of a name.
abbrev pub named : List ℕ → List TableInfo → List TableInfo
named name ts = filter (λ t. same_text t.table_name name) ts

find_table-named :
    (name : List ℕ) (row : TableInfo) (rest ts : List TableInfo)
    → named name ts ≡ row ∷ rest
    → find_table name ts ≡ some row
find_table-named name row rest [] h = cc
find_table-named name row rest (t ∷ ts) h = elim (Bool-cases (same_text t.table_name name)) [
  | inl is ↦
      let first : t ∷ named name ts ≡ row ∷ rest = rw is at h in
      let same : t ≡ row = cc in rw is (ap some same)
  | inr isnt ↦
      let later : named name ts ≡ row ∷ rest = rw isnt at h in
      rw isnt (find_table-named name row rest ts later)
]

found_set : IsSet (Option TableInfo)
found_set = hlevel

-- A name that one row has is found in whatever order the rows are.
find_table-Perm :
    (name : List ℕ) (row : TableInfo) (ts rows : List TableInfo)
    → Perm ts rows
    → named name rows ≡ row ∷ []
    → find_table name ts ≡ some row
find_table-Perm name row ts rows p h =
    ∥∥₁_elim (filter-Perm (λ t. same_text t.table_name name) p) (found_set _ _)
      (λ d. find_table-named name row [] ts (singleton_Permᴰ row d h))

-- In the same case, a name that one row of the catalog's own tables has is found after
-- `BootstrapCatalogs`, over a new pool of at least one frame on the same disk and with the catalog
-- loaded: page 0 of the disk is the header page, `LookupTable` returns the row, and
-- `GetTableColumns` of an id returns the columns that the catalog's schemas give that id, in some
-- order.
pub bootstrap_catalogs-lookup_table :
    {D : Type 0} (dm : IDiskManager D) {Stores : D → ℕ → Page → Type 0} (k : KeepsPages dm Stores)
    (turns m heap : ℕ) (c : Catalog D) (n : ℕ) (fresh : Page) (name table_id : List ℕ)
    (row : TableInfo)
    → 16 ≤ turns
    → 16 ≤ m
    → 0 < n
    → Ready c.bm
    → k.ids c.bm.disk ≡ below 0
    → c.bm.page_table root_page_id ≡ none
    → named name (tables_row ∷ attributes_row ∷ types_row ∷ []) ≡ row ∷ []
    → (c₁ : Catalog D) × (c₂ : Catalog D) × (c₃ : Catalog D) × (found : List ColumnInfo)
      × (bootstrap_catalogs dm turns c ≡ returned (some tt) c₁)
      × Stores c₁.bm.disk root_page_id header_page
      × (lookup_table dm turns m heap (load_catalogs (fresh_catalog n fresh c₁.bm.disk)) name
          ≡ returned (some (some row)) c₂)
      × (get_table_columns dm turns m heap c₂ table_id ≡ returned (some found) c₃)
      × Perm found (columns_of table_id catalog_columns)
bootstrap_catalogs-lookup_table dm k turns m heap c n fresh name table_id row enough many pos r ids
      vacant one =
    let (c₁, e₁, s) = bootstrap_catalogs-Bootstrapped dm k turns c enough r ids vacant in
    let holds =
      HoldsRows-reopened dm k c₁ s.tables_pages s.columns_pages s.ts s.cols s.based.rows n fresh pos
        s.based.tables_file s.based.attributes_file c₁.bm.disk s.durable refl in
    let (c₂, c₃, e₂, e₃, kept) =
      both_lookups dm k (load_catalogs (fresh_catalog n fresh c₁.bm.disk)) s.tables_pages
        s.columns_pages s.ts s.cols holds turns m heap name table_id
        (omega (arith, s.few_tables, enough)) (omega (arith, s.few_columns, enough))
        (omega (arith, length-Perm s.tables, many)) (omega (arith, length-Perm s.columns, many)) in
    (
      c₁,
      c₂,
      c₃,
      columns_of table_id s.cols,
      e₁,
      s.durable root_page_id header_page s.based.header,
      e₂ ∙ ap (λ o. returned (some o) c₂) (find_table-Perm name row s.ts _ s.tables one),
      e₃,
      filter-Perm (λ col. same_text col.table_id table_id) s.columns,
    )
