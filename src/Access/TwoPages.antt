-- ===== src/Access/TwoPages.antt =====
-- A pool of two frames over a file of two heap pages, for the tests.
use cpp_relational_db.Base.{
  zero, suc, ℕ, ◌+◌, ◌-◌, ◌*◌, ◌^◌, ◌<◌, ◌≤◌, ◌≡◌, refl, List, [], ◌∷◌, arith, length, ltb,
  if◌then◌else◌, lt→ltb, le→ltb,
}
use cpp_relational_db.Storage.Bytes.{Page, page_size}
use cpp_relational_db.Storage.Disk.{invalid_page_id, KeepsPages}
use cpp_relational_db.Storage.SlottedPage
use cpp_relational_db.Storage.SlottedPage.{size_of_slot}
use cpp_relational_db.Storage.DiskManager.{DiskManager, disk_manager}
use cpp_relational_db.Storage.DiskManager.Pages.{Stores, keeps_pages}
use cpp_relational_db.Storage.BufferManager.{BufferManager, new_buffer_manager, frame}
use cpp_relational_db.Storage.BufferManager.Start.{
  new_buffer_manager-IsValid, new_buffer_manager-Holds,
}
use cpp_relational_db.Access.HeapFile.{init_heap_page}
use cpp_relational_db.Access.HeapFile.Ids.{IsSound}
use cpp_relational_db.Access.HeapFile.Visit.{Ready}
use cpp_relational_db.Access.HeapFile.Chain.{Entry, IsPageOf, Chain}
use cpp_relational_db.Access.HeapFile.Shape.{
  blank, appended, at_header, IsPageOf-init_heap_page, insert_fits,
}

abbrev pub keeps : KeepsPages disk_manager Stores
keeps = keeps_pages.0

-- The file has the pages `x` and `y`, and `next` is the id that it gives out next.
abbrev pub file_of : Page → Page → ℕ → DiskManager
file_of x y next = record {
  db_io = record { size = 16384; byte = λ j. if ltb j 8192 then x j else y (j - 8192) };
  free_list = [];
  next_page_id = next;
}

abbrev pub pool_of : Page → Page → ℕ → BufferManager DiskManager
pool_of x y next = new_buffer_manager 2 (λ _. 0) (file_of x y next)

module _ (x y : Page) (next : ℕ) where
  pub file-Stores_first : Stores (file_of x y next) 0 x
  file-Stores_first = record {
    id = omega arith;
    within = omega arith;
    bytes = λ i l.
        let same : 0 * page_size + i ≡ i = omega arith in rw (same, lt→ltb i 8192 (omega arith));
  }

  pub file-Stores_second : Stores (file_of x y next) 1 y
  file-Stores_second = record {
    id = omega arith;
    within = omega arith;
    bytes = λ i l.
        let same : 1 * page_size + i - 8192 ≡ i = omega arith in
        rw (le→ltb (1 * page_size + i) 8192 (omega arith), same);
  }

  pub pool-Ready : Ready (pool_of x y next)
  unfolding new_buffer_manager
  pool-Ready = record {
    valid = new_buffer_manager-IsValid 2 (λ _. 0) (file_of x y next) (omega arith);
    pin_room = λ g. omega (arith, pins g);
    victim = 0;
    victim_within = omega arith;
    victim_free = refl;
  }
    where
      pins : (g : ℕ) → (frame (pool_of x y next) g).pin_count ≡ 0
      pins zero = refl
      pins (suc zero) = refl
      pins (suc (suc g)) = refl

  pub ids : (keeps.ids (pool_of x y next).disk) ≡ record { free = []; next = next }
  unfolding new_buffer_manager
  ids = keeps_pages.1 (file_of x y next)

  pub pool-IsSound : next < 2 ^ 31 → IsSound (keeps.ids (pool_of x y next).disk)
  pool-IsSound l = rw ids (record { given = λ p h. cc; once = tt; left = l })

  pub ids_left : next + 1 < 2 ^ 31 → (keeps.ids (pool_of x y next).disk).next + 1 < 2 ^ 31
  ids_left l = rw ids l

  pub first-Chain :
      (e : Entry)
      → e.id ≡ 0
      → IsPageOf e invalid_page_id x
      → 0 < next
      → Chain keeps (pool_of x y next) (e ∷ []) invalid_page_id
  unfolding new_buffer_manager
  first-Chain e z shape l = (
    record {
      page = x;
      holds =
          rw z
            (new_buffer_manager-Holds 2 (λ _. 0) (file_of x y next) Stores 0 x file-Stores_first);
      is_id = omega (arith, z);
      used = rw (ids, z) (l, refl);
      shape = shape;
    },
    tt,
    tt,
  )

  pub second-Chain :
      (e : Entry)
      → e.id ≡ 1
      → IsPageOf e invalid_page_id y
      → 1 < next
      → Chain keeps (pool_of x y next) (e ∷ []) invalid_page_id
  unfolding new_buffer_manager
  second-Chain e z shape l = (
    record {
      page = y;
      holds =
          rw z
            (new_buffer_manager-Holds 2 (λ _. 0) (file_of x y next) Stores 1 y file-Stores_second);
      is_id = omega (arith, z);
      used = rw (ids, z) (l, refl);
      shape = shape;
    },
    tt,
    tt,
  )

-- A page that was initialised, and one with a record.
abbrev pub empty_page : Page
empty_page = init_heap_page (λ _. 0)

abbrev pub page_with : List ℕ → Page
page_with bs = (SlottedPage.insert (at_header empty_page) bs).0.bytes

pub page_with-IsPageOf :
    (id : ℕ) (bs : List ℕ)
    → length bs + size_of_slot ≤ 8180
    → IsPageOf (appended (blank id) bs) invalid_page_id (page_with bs)
page_with-IsPageOf id bs l =
    (insert_fits (blank id) invalid_page_id empty_page (IsPageOf-init_heap_page id (λ _. 0)) bs
      (omega (arith, l)) (le→ltb 8180 (length bs + size_of_slot) l)).1
