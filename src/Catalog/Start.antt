-- ===== src/Catalog/Start.antt =====
-- How `Catalog::Init` tells a new database from one that was initialised.
use cpp_relational_db.Base.{ℕ, ◌^◌, ◌<◌, ◌≡◌, ◌∙◌, true, false, some, arith}
use cpp_relational_db.Storage.Bytes.{Page, read_u32-congr, read_u32-write_u32_self}
use cpp_relational_db.Storage.Disk.{IDiskManager, KeepsPages}
use cpp_relational_db.Storage.BufferManager.{returned, not_positive}
use cpp_relational_db.Catalog.Operations.{
  Catalog, db_magic, root_page_id, is_initialised, header_page, load_catalogs, init_catalog,
}

positive_lem : (n : ℕ) → 0 < n → n < 2 ^ 31 → not_positive n ≡ false
positive_lem n h l = ground arith

module _ {D : Type 0} (dm : IDiskManager D) {Stores : D → ℕ → Page → Type 0}
    (k : KeepsPages dm Stores) (num_pages : D → ℕ) (buf : Page) where
  is_initialised-Stores :
      (d : D)
      → Stores d root_page_id header_page
      → 0 < num_pages d
      → num_pages d < 2 ^ 31
      → is_initialised dm num_pages buf d ≡ true
  unfolding is_initialised header_page
  is_initialised-Stores d s h l =
      let magic =
        read_u32-congr _ _ 0 (λ i a m. k.reads d root_page_id header_page buf s i (omega arith))
        ∙ read_u32-write_u32_self (λ _. 0) 0 db_magic in
      rw (positive_lem (num_pages d) h l, magic)

  -- Over a disk that keeps pages, `Init` of a catalog loads it, and changes neither pool nor disk,
  -- when the disk has pages, fewer than 2 ^ 31, and its page 0 is the header page that
  -- `BootstrapCatalogs` writes.
  pub init_catalog-load_catalogs :
      (turns : ℕ) (c : Catalog D)
      → Stores c.bm.disk root_page_id header_page
      → 0 < num_pages c.bm.disk
      → num_pages c.bm.disk < 2 ^ 31
      → init_catalog dm turns num_pages buf c ≡ returned (some tt) (load_catalogs c)
  unfolding init_catalog
  init_catalog-load_catalogs turns c s h l = rw (is_initialised-Stores c.bm.disk s h l)
