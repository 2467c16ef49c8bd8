-- ===== src/Catalog/Bootstrap/Fill.antt =====
-- The catalog's tables get their rows: `InsertBuiltinTypes` and `InsertCatalogMetadata` of
-- src/catalog/catalog.cpp.
use mathlib.Core.List.Perm
use cpp_relational_db.Base.{ℕ, ◌≤◌, ◌≡◌, ◌++◌, List, [], ◌∷◌, some, length, arith, Perm}
use cpp_relational_db.Storage.Bytes.{Page}
use cpp_relational_db.Storage.Disk.{IDiskManager, KeepsPages}
use cpp_relational_db.Storage.BufferManager.{returned}
use cpp_relational_db.Access.HeapFile.Chain.{Entry}
use cpp_relational_db.Catalog.Types.{
  TableInfo, ColumnInfo, TypeInfo, tables_catalog_schema, attr_catalog_schema, types_catalog_schema,
}
use cpp_relational_db.Catalog.Operations.{Catalog, insert_builtin_types, insert_catalog_metadata}
use cpp_relational_db.Catalog.Bootstrap.Steps.{Based, insert_type-Based, insert_metadata-Based}
use cpp_relational_db.Catalog.Bootstrap.Rows.{
  tables_row, attributes_row, types_row, int_row, text_row, tables_row-TableWritable,
  attributes_row-TableWritable, types_row-TableWritable, tables_schema-ColumnWritable,
  attr_schema-ColumnWritable, types_schema-ColumnWritable, int_row-TypeWritable,
  text_row-TypeWritable,
}

-- The columns of the catalog's own tables.
abbrev pub catalog_columns : List ColumnInfo
catalog_columns = tables_catalog_schema ++ attr_catalog_schema ++ types_catalog_schema

perm_thrice :
    {A : Type 0} (xs ys zs : List A) {as₁ as₂ as₃ : List A}
    → Perm as₁ xs
    → Perm as₂ (as₁ ++ ys)
    → Perm as₃ (as₂ ++ zs)
    → Perm as₃ ((xs ++ ys) ++ zs)
perm_thrice xs ys zs p q r =
    Perm.trans r (Perm.append_right zs (Perm.trans q (Perm.append_right ys p)))

module _ {D : Type 0} (dm : IDiskManager D) {Stores : D → ℕ → Page → Type 0}
    (k : KeepsPages dm Stores) (turns : ℕ) (enough : 16 ≤ turns) where
  pub insert_builtin_types-Based :
      (c : Catalog D) (pt pa py : List Entry) (ts : List TableInfo) (cols : List ColumnInfo)
      → length py ≤ 1
      → Based k 4 c pt pa py ts cols []
      → (c' : Catalog D) × (py' : List Entry) × (tys : List TypeInfo) × (insert_builtin_types dm
            turns c
          ≡ returned (some tt) c')
        × Based k 6 c' pt pa py' ts cols tys
        × Perm tys (int_row ∷ text_row ∷ [])
        × (length py' ≤ 3)
  unfolding insert_builtin_types
  insert_builtin_types-Based c pt pa py ts cols l s =
      let (_, c₁, py₁, tys₁, e₁, s₁, p₁, l₁) =
        insert_type-Based dm k turns 4 c pt pa py ts cols [] int_row s (omega arith)
          int_row-TypeWritable (omega (arith, l, enough)) in
      let (_, c₂, py₂, tys₂, e₂, s₂, p₂, l₂) =
        insert_type-Based dm k turns 5 c₁ pt pa py₁ ts cols tys₁ text_row s₁ (omega arith)
          text_row-TypeWritable (omega (arith, l, l₁, enough)) in
      (
        c₂,
        py₂,
        tys₂,
        rw (e₁, e₂),
        s₂,
        Perm.trans p₂ (Perm.append_right (text_row ∷ []) p₁),
        omega (arith, l, l₁, l₂),
      )

  pub insert_catalog_metadata-Based :
      (c : Catalog D) (pt pa py : List Entry) (tys : List TypeInfo)
      → length pt ≤ 1
      → length pa ≤ 1
      → Based k 6 c pt pa py [] [] tys
      → (c' : Catalog D) × (pt' : List Entry) × (pa' : List Entry) × (ts : List TableInfo)
        × (cols : List ColumnInfo) × (insert_catalog_metadata dm turns c ≡ returned (some tt) c')
        × Based k 20 c' pt' pa' py ts cols tys
        × Perm ts (tables_row ∷ attributes_row ∷ types_row ∷ [])
        × Perm cols catalog_columns
        × (length pt' ≤ 4)
        × (length pa' ≤ 12)
  unfolding insert_catalog_metadata
  insert_catalog_metadata-Based c pt pa py tys l m s =
      let (c₁, pt₁, pa₁, ts₁, cols₁, e₁, s₁, p₁, q₁, l₁, m₁) =
        insert_metadata-Based dm k turns 6 c pt pa py [] [] tys tables_row tables_catalog_schema s
          (omega arith) tables_row-TableWritable tables_schema-ColumnWritable
          (omega (arith, l, enough)) (omega (arith, m, enough)) in
      let (c₂, pt₂, pa₂, ts₂, cols₂, e₂, s₂, p₂, q₂, l₂, m₂) =
        insert_metadata-Based dm k turns 11 c₁ pt₁ pa₁ py ts₁ cols₁ tys attributes_row
          attr_catalog_schema s₁ (omega arith) attributes_row-TableWritable
          attr_schema-ColumnWritable (omega (arith, l, l₁, enough))
          (omega (arith, m, m₁, enough)) in
      let (c₃, pt₃, pa₃, ts₃, cols₃, e₃, s₃, p₃, q₃, l₃, m₃) =
        insert_metadata-Based dm k turns 16 c₂ pt₂ pa₂ py ts₂ cols₂ tys types_row
          types_catalog_schema s₂ (omega arith) types_row-TableWritable types_schema-ColumnWritable
          (omega (arith, l, l₁, l₂, enough)) (omega (arith, m, m₁, m₂, enough)) in
      (
        c₃,
        pt₃,
        pa₃,
        ts₃,
        cols₃,
        rw (e₁, e₂, e₃),
        s₃,
        perm_thrice (tables_row ∷ []) (attributes_row ∷ []) (types_row ∷ []) p₁ p₂ p₃,
        perm_thrice tables_catalog_schema attr_catalog_schema types_catalog_schema q₁ q₂ q₃,
        omega (arith, l, l₁, l₂, l₃),
        omega (arith, m, m₁, m₂, m₃),
      )
