-- ===== src/Access/Tests.antt =====
-- A heap file of one page, written and iterated over.
use cpp_relational_db.Base.{ℕ, ◌≡◌, ◌⊎◌, inr, refl, List, [], ◌∷◌, ◌++◌, Option, some, arith}
use cpp_relational_db.Storage.Disk.{take_id, invalid_page_id}
use cpp_relational_db.Storage.BufferManager.{BufferManager, returned}
use cpp_relational_db.Storage.BufferManager.Invariant.{Preserves}
use cpp_relational_db.Storage.DiskManager.{DiskManager, disk_manager}
use cpp_relational_db.Storage.DiskManager.Pages.{Stores}
use cpp_relational_db.Access.HeapFile.{HeapFile, open_heap_file, insert}
use cpp_relational_db.Access.HeapFile.Visit.{Settled}
use cpp_relational_db.Access.HeapFile.Chain.{Entry}
use cpp_relational_db.Access.HeapFile.Shape.{blank, appended, IsPageOf-init_heap_page}
use cpp_relational_db.Access.HeapFile.Insert.{insert_into, Inserted, insert-insert_into}
use cpp_relational_db.Access.HeapFile.Create.{insert_first}
use cpp_relational_db.Access.HeapIterator.{for_each}
use cpp_relational_db.Access.HeapIterator.Live.{live_records}
use cpp_relational_db.Access.HeapIterator.Loop.{run, for_each-run}
use cpp_relational_db.Access.TwoPages.{
  keeps, ids_left, pool_of, pool-Ready, pool-IsSound, first-Chain, empty_page, page_with,
  page_with-IsPageOf,
}

abbrev pool : BufferManager DiskManager
pool = pool_of empty_page empty_page 2

abbrev heap_file : HeapFile
heap_file = open_heap_file [] 0

abbrev two_bytes : List ℕ
two_bytes = 5 ∷ 6 ∷ []

insert-insert_into_example :
    (b' : BufferManager DiskManager) × (insert disk_manager 2 heap_file pool two_bytes
      ≡ returned
          (some (insert_into (take_id (keeps.ids pool.disk)).1 (blank 0 ∷ []) two_bytes).1)
          (heap_file, b'))
    × Inserted disk_manager keeps 1 pool
        (blank 0 ∷ [])
        (insert_into (take_id (keeps.ids pool.disk)).1 (blank 0 ∷ []) two_bytes).0
        b'
insert-insert_into_example =
    insert-insert_into disk_manager keeps 2 pool (blank 0) [] two_bytes (omega arith) (omega arith)
      (pool-Ready empty_page empty_page 2) (pool-IsSound empty_page empty_page 2 (omega arith))
      (first-Chain empty_page empty_page 2 (blank 0) refl (IsPageOf-init_heap_page 0 (λ _. 0))
        (omega arith))
      heap_file refl

-- A heap file without a page.
abbrev no_pages : HeapFile
no_pages = open_heap_file [] invalid_page_id

insert_first_example :
    (b' : BufferManager DiskManager) × (insert disk_manager 2 no_pages pool two_bytes
      ≡ returned
          (some
            (insert_into
              (take_id (take_id (keeps.ids pool.disk)).0).1
              (blank (take_id (keeps.ids pool.disk)).1 ∷ [])
              two_bytes).1)
          (open_heap_file [] (take_id (keeps.ids pool.disk)).1, b'))
    × Inserted disk_manager keeps 2 pool []
        (insert_into
          (take_id (take_id (keeps.ids pool.disk)).0).1
          (blank (take_id (keeps.ids pool.disk)).1 ∷ [])
          two_bytes).0
        b'
insert_first_example =
    insert_first disk_manager keeps pool (pool-Ready empty_page empty_page 2)
      (pool-IsSound empty_page empty_page 2 (omega arith)) 2 no_pages two_bytes (omega arith)
      (omega arith) (ids_left empty_page empty_page 2 (omega arith)) refl

-- A body that collects the records.
abbrev gather : List (List ℕ) → List ℕ → Option (Unit {0} ⊎ List (List ℕ))
gather acc r = some (inr (acc ++ r ∷ []))

abbrev full_pool : BufferManager DiskManager
full_pool = pool_of (page_with two_bytes) empty_page 2

abbrev entry : Entry
entry = appended (blank 0) two_bytes

for_each-run_example :
    (b' : BufferManager DiskManager) × (for_each disk_manager gather 2 2 0 heap_file full_pool []
      ≡ returned (run gather [] (live_records (entry ∷ []))) b')
    × Settled keeps full_pool b'
    × Preserves Stores full_pool b'
for_each-run_example =
    for_each-run disk_manager keeps gather 2 2 full_pool 0 heap_file (entry ∷ []) []
      (pool-Ready (page_with two_bytes) empty_page 2)
      (first-Chain (page_with two_bytes) empty_page 2 entry refl
        (page_with-IsPageOf 0 two_bytes (omega arith)) (omega arith))
      (omega arith) refl (omega arith)

-- The loop above collects the record.
test_collected : run gather [] (live_records (entry ∷ [])) ≡ some (inr (two_bytes ∷ []))
test_collected = refl
