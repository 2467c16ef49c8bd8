-- ===== src/Catalog/RootPage.antt =====
-- The first pages of the catalog's tables, which `Catalog::BootstrapCatalogs` of
-- src/catalog/catalog.cpp takes and initialises.
use cpp_relational_db.Base.{
  ℕ, ◌+◌, ◌-◌, ◌%◌, ◌^◌, ◌≡◌, false, sym, ap, ◌∙◌, subst, [], ◌∷◌, arith, ==_self,
}
use cpp_relational_db.Storage.Bytes.{Page}
use cpp_relational_db.Storage.Disk.{IDiskManager, KeepsPages, IsPageId, take_id}
use cpp_relational_db.Storage.BufferManager.{
  BufferManager, Outcome, returned, frame, not_positive, request, unpin, mark_dirty, write_data,
}
use cpp_relational_db.Storage.BufferManager.Invariant.{
  Akin-trans, SameCache-Akin, SameCache-IsValid, SameCache-Preserves,
}
use cpp_relational_db.Storage.BufferManager.Pins.{unpin-SameCache, unpin_self, unpin_ne}
use cpp_relational_db.Access.HeapFile.{and_then, allocate, init_heap_page}
use cpp_relational_db.Access.HeapFile.Ids.{IsSound}
use cpp_relational_db.Access.HeapFile.Finish.{write-Wrote}
use cpp_relational_db.Access.HeapFile.Visit.{
  Ready, request-Opened, Opened-SameBytes, pins_back, written-Akin,
}
use cpp_relational_db.Access.HeapFile.Shape.{blank}
use cpp_relational_db.Access.HeapFile.Append.{allocate-Allocated, allocate_id, Edited}
use cpp_relational_db.Access.HeapFile.Insert.{Inserted}
use cpp_relational_db.Access.HeapFile.Create.{Edited-Inserted}
use cpp_relational_db.Catalog.Operations.{Catalog, take_page, root_page, on_pool}

one_less : (n m : ℕ) → not_positive n ≡ false → m ≡ (n + 2 ^ 32 - 1) % 2 ^ 32 → m + 1 ≡ n
one_less n m h e = ground arith

module _ {D : Type 0} (dm : IDiskManager D) {Stores : D → ℕ → Page → Type 0}
    (k : KeepsPages dm Stores) where
  -- A page that is requested, initialised, marked dirty and unpinned.
  abbrev start_page : BufferManager D → ℕ → Outcome (BufferManager D) (Unit {0})
  start_page b pid = and_then (request dm b pid) (λ f b.
      let written = write_data b f (init_heap_page (frame b f).bytes) in
      returned tt (unpin (mark_dirty written f) f))

  start_page-Edited :
      (b : BufferManager D) (pid : ℕ)
      → Ready b
      → IsPageId pid
      → (y : Page) × (b' : BufferManager D) × (start_page b pid ≡ returned tt b')
        × Edited dm k init_heap_page b pid y b'
  start_page-Edited b pid r q =
      let (f, b₁, o) = request-Opened dm k b pid r q in
      let s = o.serves in
      let y = (frame b₁ f).bytes in
      let x = init_heap_page y in
      let w = write-Wrote dm k b₁ pid f s.valid s.there x in
      let c = mark_dirty (write_data b₁ f x) f in
      let same = unpin-SameCache c f in
      let less : (frame (unpin c f) f).pin_count + 1 ≡ (frame b₁ f).pin_count =
        one_less (frame b₁ f).pin_count (frame (unpin c f) f).pin_count o.positive (
          unpin_self c f (w.valid.table pid f w.there).0
          ∙ ap (λ n. (n + 2 ^ 32 - 1) % 2 ^ 32) (w.pins f)) in
      (
        y,
        unpin c f,
        rw o.requested,
        record {
          settled = record {
            valid = SameCache-IsValid same w.valid;
            pins =
                pins_back dm k b pid r q f b₁ o (unpin c f) less
                  (λ g ne. unpin_ne c f g ne ∙ w.pins g);
            akin =
                Akin-trans k s.akin (Akin-trans k (written-Akin k b₁ f x) (SameCache-Akin k same));
          };
          held = λ z h. Opened-SameBytes dm k b pid r q f b₁ o z h;
          own = SameCache-Preserves same Stores pid x w.own;
          others = λ p z ne h. SameCache-Preserves same Stores p z (w.others p z ne (s.kept p z h));
        },
      )

  -- The page that `take_page` expects is the next that the disk gives out.
  pub take_page_lem :
      (turns : ℕ) (c : Catalog D) (pid : ℕ)
      → (take_id (k.ids c.bm.disk)).1 ≡ pid
      → take_page dm turns c pid ≡ returned tt (record c { bm = (allocate dm c.bm).0 })
  unfolding take_page
  take_page_lem turns c pid e =
      let same : (allocate dm c.bm).1 ≡ pid = allocate_id dm k c.bm ∙ e in rw (same, ==_self pid)

  pub root_page-Inserted :
      (turns : ℕ) (c : Catalog D) (pid : ℕ)
      → Ready c.bm
      → IsSound (k.ids c.bm.disk)
      → (take_id (k.ids c.bm.disk)).1 ≡ pid
      → (b' : BufferManager D) × (root_page dm turns c pid ≡ returned tt (record c { bm = b' }))
        × Inserted dm k 1 c.bm [] (blank pid ∷ []) b'
        × (k.ids b'.disk ≡ (take_id (k.ids c.bm.disk)).0)
  unfolding root_page
  root_page-Inserted turns c pid r sound e =
      let (b₀, id) = allocate dm c.bm in
      let a = allocate-Allocated dm k c.bm r sound in
      let (y, b₁, e₁, ed) = start_page-Edited b₀ id a.ready a.fresh.is_id in
      let same : id ≡ pid = allocate_id dm k c.bm ∙ e in
      let (i, after) = Edited-Inserted dm k c.bm r sound y b₁ ed in
      (
        b₁,
        rw (take_page_lem turns c pid e) (
            ap (λ p. on_pool (record c { bm = b₀ }) (start_page b₀ p)) (sym same)
            ∙ ap (on_pool (record c { bm = b₀ })) e₁),
        subst (λ p. Inserted dm k 1 c.bm [] (blank p ∷ []) b₁) e i,
        after,
      )
