-- ===== src/Catalog/Bootstrap.antt =====
-- `Catalog::BootstrapCatalogs` of src/catalog/catalog.cpp on an empty disk.
pub mod Pages
pub mod Steps
pub mod Rows
pub mod Fill
pub mod Lookups
mod Tests
use cpp_relational_db.Base.{
  ℕ, ◌≤◌, ◌≡◌, refl, ap, ◌∙◌, List, [], ◌∷◌, some, none, length, arith, Perm,
}
use cpp_relational_db.Storage.Bytes.{Page}
use cpp_relational_db.Storage.Disk.{IDiskManager, KeepsPages, invalid_page_id}
use cpp_relational_db.Storage.BufferManager.{BufferManager, returned, flush_all}
use cpp_relational_db.Storage.BufferManager.Invariant.{Holds}
use cpp_relational_db.Storage.BufferManager.FlushAll.{flush_all_lem}
use cpp_relational_db.Access.HeapFile.{HeapFile}
use cpp_relational_db.Access.HeapFile.Visit.{Ready}
use cpp_relational_db.Access.HeapFile.Chain.{Entry, Chain}
use cpp_relational_db.Access.HeapFile.Shape.{blank}
use cpp_relational_db.Access.HeapFile.Reopen.{flush_all-Settled, flush_all-Stores}
use cpp_relational_db.Catalog.Types.{TableInfo, ColumnInfo, TypeInfo}
use cpp_relational_db.Catalog.CatalogTables.Lookup.{Unchanged}
use cpp_relational_db.Catalog.Operations.{
  Catalog, root_page_id, header_page, load_catalogs, bootstrap_catalogs,
}
use cpp_relational_db.Catalog.RowLookups.{Filed-Unchanged, HoldsRows-Unchanged}
use cpp_relational_db.Catalog.Bootstrap.Pages.{
  below, Headed, Headed-IsSound, Headed-InUse, pages_lem,
}
use cpp_relational_db.Catalog.Bootstrap.Steps.{Based}
use cpp_relational_db.Catalog.Bootstrap.Rows.{
  tables_row, attributes_row, types_row, int_row, text_row,
}
use cpp_relational_db.Catalog.Bootstrap.Fill.{
  catalog_columns, insert_builtin_types-Based, insert_catalog_metadata-Based,
}

module _ {D : Type 0} (dm : IDiskManager D) {Stores : D → ℕ → Page → Type 0}
    (k : KeepsPages dm Stores) where
  -- The empty heap files on the pages that were taken.
  Based-load_catalogs :
      (turns : ℕ) (c : Catalog D) (b : BufferManager D)
      → Headed dm k turns 4 b
      → Chain k b (blank 1 ∷ []) invalid_page_id
      → Chain k b (blank 2 ∷ []) invalid_page_id
      → Chain k b (blank 3 ∷ []) invalid_page_id
      → Based k 4
          (load_catalogs (record c { bm = b }))
          (blank 1 ∷ [])
          (blank 2 ∷ [])
          (blank 3 ∷ [])
          []
          []
          []
  unfolding load_catalogs
  Based-load_catalogs turns c b h c₁ c₂ c₃ = record {
    rows = record {
      ready = h.ready;
      sound = Headed-IsSound dm k turns (omega arith) h;
      ht = _;
      ha = _;
      has_tables = refl;
      has_attributes = refl;
      tables = record { proper = omega arith; first = refl; chain = c₁; records = refl };
      attributes = record { proper = omega arith; first = refl; chain = c₂; records = refl };
      apart = (((λ s. omega (arith, s)), tt), tt);
      tables_fit = tt;
      columns_fit = tt;
    };
    types = record {
      hy = _;
      has_types = refl;
      types = record { proper = omega arith; first = refl; chain = c₃; records = refl };
      tables_apart = (((λ s. omega (arith, s)), tt), tt);
      attributes_apart = (((λ s. omega (arith, s)), tt), tt);
      types_fit = tt;
    };
    next = omega (arith, ap (λ s. s.next) h.ids);
    header = h.header;
    used = Headed-InUse dm k turns h 0 (omega arith);
    tables_away = ((λ s. omega (arith, s)), tt);
    attributes_away = ((λ s. omega (arith, s)), tt);
    types_away = ((λ s. omega (arith, s)), tt);
    tables_file = refl;
    attributes_file = refl;
  }

  -- The catalog over a pool in which no page's contents changed.
  Based-Unchanged :
      (n : ℕ) (c : Catalog D) (pt pa py : List Entry) (ts : List TableInfo) (cols : List ColumnInfo)
      (tys : List TypeInfo) (b' : BufferManager D)
      → Unchanged k c.bm b'
      → Based k n c pt pa py ts cols tys
      → Based k n (record c { bm = b' }) pt pa py ts cols tys
  Based-Unchanged n c pt pa py ts cols tys b' u s = record {
    rows = HoldsRows-Unchanged dm k c pt pa ts cols s.rows b' u;
    types = record {
      hy = s.types.hy;
      has_types = s.types.has_types;
      types = Filed-Unchanged dm k c pt pa ts cols s.rows _ b' u s.types.hy py tys s.types.types;
      tables_apart = s.types.tables_apart;
      attributes_apart = s.types.attributes_apart;
      types_fit = s.types.types_fit;
    };
    next = rw u.0.akin.ids s.next;
    header = u.1 root_page_id header_page s.header;
    used = rw u.0.akin.ids s.used;
    tables_away = s.tables_away;
    attributes_away = s.attributes_away;
    types_away = s.types_away;
    tables_file = s.tables_file;
    attributes_file = s.attributes_file;
  }

  -- A bootstrapped catalog: its tables hold their own rows, columns and types, and the disk has every
  -- page.
  pub record Bootstrapped (c : Catalog D) : Type 0 where
    pub tables_pages : List Entry
    pub columns_pages : List Entry
    pub types_pages : List Entry
    pub ts : List TableInfo
    pub cols : List ColumnInfo
    pub tys : List TypeInfo
    pub based : Based k 20 c tables_pages columns_pages types_pages ts cols tys
    pub tables : Perm ts (tables_row ∷ attributes_row ∷ types_row ∷ [])
    pub columns : Perm cols catalog_columns
    pub types : Perm tys (int_row ∷ text_row ∷ [])
    pub few_tables : length tables_pages ≤ 4
    pub few_columns : length columns_pages ≤ 12
    pub durable : (p : ℕ) (x : Page) → Holds Stores c.bm p x → Stores c.bm.disk p x

  Bootstrapped-flush_all :
      (c : Catalog D) (pt pa py : List Entry) (ts : List TableInfo) (cols : List ColumnInfo)
      (tys : List TypeInfo)
      → Based k 20 c pt pa py ts cols tys
      → Perm ts (tables_row ∷ attributes_row ∷ types_row ∷ [])
      → Perm cols catalog_columns
      → Perm tys (int_row ∷ text_row ∷ [])
      → length pt ≤ 4
      → length pa ≤ 12
      → Bootstrapped (record c { bm = flush_all dm c.bm })
  Bootstrapped-flush_all c pt pa py ts cols tys s p q q' l m =
      let v = s.rows.ready.valid in
      record {
        tables_pages = pt;
        columns_pages = pa;
        types_pages = py;
        ts = ts;
        cols = cols;
        tys = tys;
        based =
            Based-Unchanged 20 c pt pa py ts cols tys (flush_all dm c.bm)
              (flush_all-Settled dm k c.bm v, (flush_all_lem dm k c.bm v).1) s;
        tables = p;
        columns = q;
        types = q';
        few_tables = l;
        few_columns = m;
        durable = flush_all-Stores dm k c.bm v;
      }

  -- On a valid pool with an unpinned frame and room for a pin on every frame, which does not have
  -- page 0, over a disk that keeps pages and has given out no page id, `BootstrapCatalogs` with at
  -- least 16 turns for its loops returns; the three catalog tables hold their own rows, columns
  -- and the two types, each in some order, on pages that they do not share, beside the header
  -- page, and the disk has the contents of every page.
  pub bootstrap_catalogs-Bootstrapped :
      (turns : ℕ) (c : Catalog D)
      → 16 ≤ turns
      → Ready c.bm
      → k.ids c.bm.disk ≡ below 0
      → c.bm.page_table root_page_id ≡ none
      → (c' : Catalog D) × (bootstrap_catalogs dm turns c ≡ returned (some tt) c') × Bootstrapped c'
  unfolding bootstrap_catalogs
  bootstrap_catalogs-Bootstrapped turns c enough r ids vacant =
      let (c₀, b₁, b₂, b₃, e₀, e₁, e₂, e₃, h, ch₁, ch₂, ch₃) =
        pages_lem dm k turns c r ids vacant in
      let s₃ = Based-load_catalogs turns c b₃ h ch₁ ch₂ ch₃ in
      let (c₄, py, tys, e₄, s₄, q, m) =
        insert_builtin_types-Based dm k turns enough (load_catalogs (record c { bm = b₃ })) _ _ _ []
          [] (omega arith) s₃ in
      let (c₅, pt, pa, ts, cols, e₅, s₅, q', q'', m', m'') =
        insert_catalog_metadata-Based dm k turns enough c₄ _ _ py tys (omega arith) (omega arith)
          s₄ in
      (
        record c₅ { bm = flush_all dm c₅.bm },
        rw (e₀, e₁, e₂, e₃, e₄, e₅),
        Bootstrapped-flush_all c₅ pt pa py ts cols tys s₅ q' q'' q m' m'',
      )
