-- ===== src/Catalog/InsertMetadata.antt =====
-- `insert_metadata`: a table's row and its columns' rows, which src/catalog/catalog.cpp inserts one
-- after the other.
use mathlib.Core.List.Perm
use cpp_relational_db.Base.{
  ℕ, ◌+◌, ◌^◌, ◌<◌, ◌≤◌, ◌≡◌, ◌++◌, refl, sym, subst, List, [], ◌∷◌, some, length, append-nil,
  arith, Perm, perm_middle, ap, ◌∙◌, false, if◌then◌else◌,
}
use cpp_relational_db.Storage.Bytes.{Page}
use cpp_relational_db.Storage.Disk.{IDiskManager, KeepsPages}
use cpp_relational_db.Storage.BufferManager.{returned}
use cpp_relational_db.Access.HeapFile.Chain.{Entry}
use cpp_relational_db.Catalog.Types.{TableInfo, ColumnInfo}
use cpp_relational_db.Catalog.CatalogTables.Lookup.{All}
use cpp_relational_db.Catalog.CatalogTables.{same_text}
use cpp_relational_db.Catalog.RowLookups.{columns_of}
use cpp_relational_db.Catalog.Operations.{Catalog, insert_columns, insert_metadata}
use cpp_relational_db.Catalog.Extended.{
  TableWritable, ColumnWritable, HoldsRows, Extended, Extended-refl, Extended-trans,
  insert_table-HoldsRows, insert_attribute-HoldsRows,
}

pub perm_snoc :
    {A : Type 0} (before behind : List A) (col : A) (cols rows rows' : List A)
    → rows ≡ before ++ behind
    → Perm rows' ((before ++ col ∷ behind) ++ cols)
    → Perm rows' (rows ++ col ∷ cols)
perm_snoc before behind col cols rows rows' s p = Perm.trans p (
    Perm.trans (Perm.append_right cols (perm_middle before behind)) (
      Perm.trans
        (subst (λ q. Perm (col ∷ (before ++ behind) ++ cols) (col ∷ q ++ cols)) (sym s)
          (Perm.refl _))
        (Perm.symm (perm_middle rows cols))))

-- A row of another table does not come to a table's columns.
columns_of_skip :
    (t : List ℕ) (before behind : List ColumnInfo) (col : ColumnInfo)
    → same_text col.table_id t ≡ false
    → columns_of t (before ++ col ∷ behind) ≡ columns_of t (before ++ behind)
columns_of_skip t [] behind col h = rw h refl
columns_of_skip t (c ∷ before) behind col h =
    ap (λ cs. if same_text c.table_id t then c ∷ cs else cs) (columns_of_skip t before behind col h)

-- The columns of a table to which no row of `new` belongs are the same, in the same order.
abbrev pub SameColumns : List ColumnInfo → List ColumnInfo → List ColumnInfo → Type 0
SameColumns new cols cols' =
    (t : List ℕ)
    → All (λ col. same_text col.table_id t ≡ false) new
    → columns_of t cols' ≡ columns_of t cols

module _ {D : Type 0} (dm : IDiskManager D) {Stores : D → ℕ → Page → Type 0}
    (k : KeepsPages dm Stores) (turns : ℕ) where
  -- The columns' rows are inserted, in places that depend on the room in the pages.
  pub insert_columns-HoldsRows :
      (new : List ColumnInfo) (c : Catalog D) (pt pa : List Entry) (ts : List TableInfo)
      (cols : List ColumnInfo)
      → HoldsRows k c pt pa ts cols
      → (k.ids c.bm.disk).next + length new < 2 ^ 31
      → All ColumnWritable new
      → length pa + length new ≤ turns
      → (c' : Catalog D) × (pa' : List Entry) × (cols' : List ColumnInfo) × (insert_columns dm turns
            c new
          ≡ returned (some tt) c')
        × HoldsRows k c' pt pa' ts cols'
        × Extended k (length new) c pt pa c' pt pa'
        × Perm cols' (cols ++ new)
        × (length pa' ≤ length pa + length new)
        × SameColumns new cols cols'
  unfolding insert_columns
  insert_columns-HoldsRows [] c pt pa ts cols holds left writable l = (
    c,
    pa,
    cols,
    refl,
    holds,
    Extended-refl k,
    subst (Perm cols) (sym (append-nil cols)) (Perm.refl cols),
    omega arith,
    λ t h. refl,
  )
  insert_columns-HoldsRows (col ∷ new) c pt pa ts cols holds left (w, ws) l =
      let (rid, c₁, pa₁, before, behind, eq, split, holds₁, x, few) =
        insert_attribute-HoldsRows dm k turns c pt pa ts cols holds (omega (arith, left)) col w
          (omega (arith, l)) in
      let (c₂, pa₂, cols₂, eq', holds₂, y, p, few', same) =
        insert_columns-HoldsRows new c₁ pt pa₁ ts (before ++ col ∷ behind) holds₁
          (omega (arith, left, x.grown.next)) ws (omega (arith, few, l)) in
      (
        c₂,
        pa₂,
        cols₂,
        rw (eq, eq'),
        holds₂,
        subst (λ n. Extended k n c pt pa c₂ pt pa₂) (omega arith) (Extended-trans k x y),
        perm_snoc before behind col new cols cols₂ split p,
        omega (arith, few, few'),
        λ t h. same t h.1 ∙ columns_of_skip t before behind col h.0 ∙ ap (columns_of t) (sym split),
      )

  -- Both insertions.
  pub insert_metadata-HoldsRows :
      (row : TableInfo) (new : List ColumnInfo) (c : Catalog D) (pt pa : List Entry)
      (ts : List TableInfo) (cols : List ColumnInfo)
      → HoldsRows k c pt pa ts cols
      → (k.ids c.bm.disk).next + 1 + length new < 2 ^ 31
      → TableWritable row
      → All ColumnWritable new
      → length pt < turns
      → length pa + length new ≤ turns
      → (c' : Catalog D) × (pt' : List Entry) × (pa' : List Entry) × (before : List TableInfo)
        × (behind : List TableInfo) × (cols' : List ColumnInfo) × (insert_metadata dm turns c row
              new
            ≡ returned (some tt) c')
        × (ts ≡ before ++ behind)
        × HoldsRows k c' pt' pa' (before ++ row ∷ behind) cols'
        × Extended k (1 + length new) c pt pa c' pt' pa'
        × Perm cols' (cols ++ new)
        × (length pt' ≤ length pt + 1)
        × (length pa' ≤ length pa + length new)
        × SameColumns new cols cols'
  unfolding insert_metadata
  insert_metadata-HoldsRows row new c pt pa ts cols holds left w ws l l' =
      let (rid, c₁, pt₁, before, behind, eq, split, holds₁, x, few) =
        insert_table-HoldsRows dm k turns c pt pa ts cols holds (omega (arith, left)) row w l in
      let (c₂, pa₂, cols₂, eq', holds₂, y, p, few', same) =
        insert_columns-HoldsRows new c₁ pt₁ pa (before ++ row ∷ behind) cols holds₁
          (omega (arith, left, x.grown.next)) ws l' in
      (
        c₂,
        pt₁,
        pa₂,
        before,
        behind,
        cols₂,
        rw (eq, eq'),
        split,
        holds₂,
        Extended-trans k x y,
        p,
        few,
        few',
        same,
      )
