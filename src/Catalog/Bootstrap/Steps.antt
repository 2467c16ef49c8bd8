-- ===== src/Catalog/Bootstrap/Steps.antt =====
-- The insertions of `Catalog::BootstrapCatalogs` of src/catalog/catalog.cpp, one after the other.
use mathlib.Core.List.Perm
use cpp_relational_db.Base.{
  ℕ, ◌+◌, ◌^◌, ◌<◌, ◌≤◌, ◌≡◌, ◌++◌, sym, ◌∙◌, subst, List, [], ◌∷◌, some, length, arith, append-nil,
  Perm,
}
use cpp_relational_db.Storage.Bytes.{Page}
use cpp_relational_db.Storage.Disk.{IDiskManager, KeepsPages}
use cpp_relational_db.Storage.BufferManager.{returned}
use cpp_relational_db.Storage.BufferManager.Invariant.{Holds}
use cpp_relational_db.Access.HeapFile.{Rid, open_heap_file}
use cpp_relational_db.Access.HeapFile.Ids.{InUse}
use cpp_relational_db.Access.HeapFile.Chain.{Entry, Away}
use cpp_relational_db.Catalog.Types.{TableInfo, ColumnInfo, TypeInfo}
use cpp_relational_db.Catalog.CatalogTables.Lookup.{All}
use cpp_relational_db.Catalog.Operations.{
  Catalog, root_page_id, header_page, insert_type, insert_metadata, db_tables_file_id,
  db_tables_root_page_id, db_attributes_file_id, db_attributes_root_page_id,
}
use cpp_relational_db.Catalog.Extended.{TableWritable, ColumnWritable, HoldsRows}
use cpp_relational_db.Catalog.InsertMetadata.{perm_snoc, insert_metadata-HoldsRows}
use cpp_relational_db.Catalog.TypeRows.{
  TypeWritable, HoldsTypes, HoldsTypes-Extended, insert_type-HoldsTypes,
}

module _ {D : Type 0} {dm : IDiskManager D} {Stores : D → ℕ → Page → Type 0}
    (k : KeepsPages dm Stores) where
  -- The catalog's three heap files hold the rows, beside the header page, and at most `n` page ids
  -- were given out.
  pub record Based (n : ℕ) (c : Catalog D) (pt pa py : List Entry) (ts : List TableInfo)
      (cols : List ColumnInfo) (tys : List TypeInfo) : Type 0 where
    pub rows : HoldsRows k c pt pa ts cols
    pub types : HoldsTypes k c pt pa py tys
    pub next : (k.ids c.bm.disk).next ≤ n
    pub header : Holds Stores c.bm root_page_id header_page
    pub used : InUse (k.ids c.bm.disk) root_page_id
    pub tables_away : Away root_page_id pt
    pub attributes_away : Away root_page_id pa
    pub types_away : Away root_page_id py
    pub tables_file : c.tables ≡ some (open_heap_file db_tables_file_id db_tables_root_page_id)
    pub attributes_file :
        c.attributes ≡ some (open_heap_file db_attributes_file_id db_attributes_root_page_id)

pub perm_last :
    {A : Type 0} (before behind : List A) (row : A) (rows : List A)
    → rows ≡ before ++ behind
    → Perm (before ++ row ∷ behind) (rows ++ row ∷ [])
perm_last before behind row rows s =
    perm_snoc before behind row [] rows (before ++ row ∷ behind) s (
      subst (Perm (before ++ row ∷ behind)) (sym (append-nil (before ++ row ∷ behind)))
        (Perm.refl (before ++ row ∷ behind)))

module _ {D : Type 0} (dm : IDiskManager D) {Stores : D → ℕ → Page → Type 0}
    (k : KeepsPages dm Stores) (turns : ℕ) where
  pub insert_type-Based :
      (n : ℕ) (c : Catalog D) (pt pa py : List Entry) (ts : List TableInfo) (cols : List ColumnInfo)
      (tys : List TypeInfo) (row : TypeInfo)
      → Based k n c pt pa py ts cols tys
      → n + 1 < 2 ^ 31
      → TypeWritable row
      → length py < turns
      → (rid : Rid) × (c' : Catalog D) × (py' : List Entry) × (tys' : List TypeInfo) × (insert_type
            dm turns c row
          ≡ returned (some (some rid)) c')
        × Based k (n + 1) c' pt pa py' ts cols tys'
        × Perm tys' (tys ++ row ∷ [])
        × (length py' ≤ length py + 1)
  insert_type-Based n c pt pa py ts cols tys row s left w l =
      let (rid, c', py', before, behind, eq, split, rows, types, grown, others, same, same', few) =
        insert_type-HoldsTypes dm k turns c pt pa py ts cols tys s.rows s.types
          (omega (arith, left, s.next)) row w l in
      let (held, away) = others root_page_id header_page s.used s.types_away s.header in
      (
        rid,
        c',
        py',
        before ++ row ∷ behind,
        eq,
        record {
          rows = rows;
          types = types;
          next = omega (arith, s.next, grown.next);
          header = held;
          used = grown.more root_page_id s.used;
          tables_away = s.tables_away;
          attributes_away = s.attributes_away;
          types_away = away;
          tables_file = same ∙ s.tables_file;
          attributes_file = same' ∙ s.attributes_file;
        },
        perm_last before behind row tys split,
        few,
      )

  pub insert_metadata-Based :
      (n : ℕ) (c : Catalog D) (pt pa py : List Entry) (ts : List TableInfo) (cols : List ColumnInfo)
      (tys : List TypeInfo) (row : TableInfo) (new : List ColumnInfo)
      → Based k n c pt pa py ts cols tys
      → n + 1 + length new < 2 ^ 31
      → TableWritable row
      → All ColumnWritable new
      → length pt < turns
      → length pa + length new ≤ turns
      → (c' : Catalog D) × (pt' : List Entry) × (pa' : List Entry) × (ts' : List TableInfo)
        × (cols' : List ColumnInfo) × (insert_metadata dm turns c row new ≡ returned (some tt) c')
        × Based k (n + 1 + length new) c' pt' pa' py ts' cols' tys
        × Perm ts' (ts ++ row ∷ [])
        × Perm cols' (cols ++ new)
        × (length pt' ≤ length pt + 1)
        × (length pa' ≤ length pa + length new)
  insert_metadata-Based n c pt pa py ts cols tys row new s left w ws l l' =
      let (c', pt', pa', before, behind, cols', eq, split, rows, x, perm, few, few', _) =
        insert_metadata-HoldsRows dm k turns row new c pt pa ts cols s.rows
          (omega (arith, left, s.next)) w ws l l' in
      let (away, away') = x.own root_page_id s.used s.tables_away s.attributes_away in
      (
        c',
        pt',
        pa',
        before ++ row ∷ behind,
        cols',
        eq,
        record {
          rows = rows;
          types = HoldsTypes-Extended k x s.types;
          next = omega (arith, s.next, x.grown.next);
          header =
              x.others root_page_id header_page s.used s.tables_away s.attributes_away s.header;
          used = x.grown.more root_page_id s.used;
          tables_away = away;
          attributes_away = away';
          types_away = s.types_away;
          tables_file = x.tables ∙ s.tables_file;
          attributes_file = x.attributes ∙ s.attributes_file;
        },
        perm_last before behind row ts split,
        perm,
        few,
        few',
      )
