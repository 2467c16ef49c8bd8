-- ===== src/Access/LoadedPage.antt =====
-- A pool in which a heap page with two records is loaded, for the tests.
use cpp_relational_db.Base.{ℕ, ◌+◌, ◌-◌, ◌≤◌, inl, inr, refl, List, [], ◌∷◌, arith, length, le→ltb}
use cpp_relational_db.Storage.Bytes.{Page}
use cpp_relational_db.Storage.Disk.{IsPageId, invalid_page_id}
use cpp_relational_db.Storage.SlottedPage
use cpp_relational_db.Storage.SlottedPage.{size_of_slot}
use cpp_relational_db.Storage.BufferManager.{BufferManager}
use cpp_relational_db.Storage.DiskManager.{DiskManager, disk_manager}
use cpp_relational_db.Access.HeapFile.Visit.{
  Ready, Settled-Ready, Opened, request-Opened, release_read,
}
use cpp_relational_db.Access.HeapFile.Chain.{Entry, IsPageOf, Chain, Chain-Preserves}
use cpp_relational_db.Access.HeapFile.Shape.{blank, appended, at_header, insert_fits}
use cpp_relational_db.Access.HeapIterator.Cached.{InPool, release_still}
use cpp_relational_db.Access.TwoPages.{
  keeps, pool_of, pool-Ready, first-Chain, empty_page, page_with, page_with-IsPageOf,
}

first_id : IsPageId 0
first_id = omega arith

module _ (r s : List ℕ) where
  abbrev page : Page
  page = (SlottedPage.insert (at_header (page_with r)) s).0.bytes

  abbrev pub entry : Entry
  entry = appended (appended (blank 0) r) s

  abbrev pool : BufferManager DiskManager
  pool = pool_of page empty_page 2

  ready : Ready pool
  ready = pool-Ready page empty_page 2

  visit :
      (f : ℕ) × (b₁ : BufferManager DiskManager) × Opened disk_manager keeps pool 0 ready first_id f
        b₁
  visit = request-Opened disk_manager keeps pool 0 ready first_id

  -- The pool after the page was requested and released.
  pub loaded : BufferManager DiskManager
  loaded = (release_read disk_manager keeps pool 0 ready first_id visit.0 visit.1 visit.2).0

  pub loaded-Ready : Ready loaded
  unfolding loaded
  loaded-Ready =
      let (b₂, e, settled, kept, bytes) =
        release_read disk_manager keeps pool 0 ready first_id visit.0 visit.1 visit.2 in
      Settled-Ready keeps settled ready

  pub loaded-InPool : InPool loaded (entry ∷ [])
  unfolding loaded
  loaded-InPool p (inr w) = absurd w
  loaded-InPool p (inl z) =
      let (f, b₁, o) = visit in
      let (b₂, e, settled, kept, bytes) =
        release_read disk_manager keeps pool 0 ready first_id f b₁ o in
      let same = release_still b₁ b₂ 0 o.serves.valid e in
      (f, rw (z, same.page_table) o.serves.there)

  pub loaded-Chain :
      length r + size_of_slot ≤ 4000
      → length s + size_of_slot ≤ 4000
      → Chain keeps loaded (entry ∷ []) invalid_page_id
  unfolding loaded
  loaded-Chain l l' =
      let (b₂, e, settled, kept, bytes) =
        release_read disk_manager keeps pool 0 ready first_id visit.0 visit.1 visit.2 in
      let shape : IsPageOf (appended (blank 0) r) invalid_page_id (page_with r) =
        page_with-IsPageOf 0 r (omega (arith, l)) in
      let both : IsPageOf entry invalid_page_id page =
        (insert_fits (appended (blank 0) r) invalid_page_id (page_with r) shape s
          (omega (arith, l'))
          (le→ltb (8180 - (length r + size_of_slot)) (length s + size_of_slot)
            (omega (arith, l, l')))).1 in
      Chain-Preserves keeps (λ p u. rw settled.akin.ids u) kept (entry ∷ []) invalid_page_id
        (first-Chain page empty_page 2 entry refl both (omega arith))
