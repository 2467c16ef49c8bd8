-- ===== src/Access/HeapFile/History/Tests.antt =====
-- The history of a heap file into which a record is inserted.
use mathlib.Core.Option
use cpp_relational_db.Base.{ℕ, ◌≡◌, inl, refl, List, [], ◌∷◌, Option, some, arith}
use cpp_relational_db.Storage.Disk.{invalid_page_id}
use cpp_relational_db.Storage.BufferManager.{BufferManager, returned}
use cpp_relational_db.Storage.DiskManager.{DiskManager, disk_manager}
use cpp_relational_db.Access.HeapFile.{HeapFile, Rid, Record, shown, open_heap_file, insert, get}
use cpp_relational_db.Access.HeapFile.Chain.{Chain}
use cpp_relational_db.Access.HeapFile.Shape.{blank, IsPageOf-init_heap_page}
use cpp_relational_db.Access.HeapFile.Walk.{place}
use cpp_relational_db.Access.HeapFile.Insert.{insert_into, insert-insert_into}
use cpp_relational_db.Access.HeapFile.History.{
  History, inserting, inserted, Reach, Step, start, next,
}
use cpp_relational_db.Access.HeapFile.History.Insertions.{logged, HoldsMap}
use cpp_relational_db.Access.HeapFile.History.Reached.{Reach-HoldsMap, Reach-get, Reach-Step}
use cpp_relational_db.Access.TwoPages.{
  keeps, ids, pool_of, pool-Ready, pool-IsSound, first-Chain, empty_page,
}

abbrev pool : BufferManager DiskManager
pool = pool_of empty_page empty_page 2

abbrev heap_file : HeapFile
heap_file = open_heap_file [] 0

abbrev two_bytes : List ℕ
two_bytes = 5 ∷ 6 ∷ []

abbrev rid : Rid
rid = record { page_id = 0; slot_id = 0 }

one_page : Chain keeps pool (blank 0 ∷ []) invalid_page_id
one_page =
    first-Chain empty_page empty_page 2 (blank 0) refl (IsPageOf-init_heap_page 0 (λ _. 0))
      (omega arith)

first_insert :
    (b' : BufferManager DiskManager) × (insert disk_manager 4 heap_file pool two_bytes
      ≡ returned (some (some rid)) (heap_file, b'))
unfolding insert_into place
first_insert =
    let (b', eq, i) =
      insert-insert_into disk_manager keeps 4 pool (blank 0) [] two_bytes (omega arith)
        (omega arith) (pool-Ready empty_page empty_page 2)
        (pool-IsSound empty_page empty_page 2 (omega arith)) one_page heap_file refl in
    (b', eq)

abbrev written : History
written = (rid, two_bytes) ∷ []

first_Reach : Reach disk_manager 4 heap_file pool 1 first_insert.0 written
first_Reach = next start (inserted two_bytes rid (omega arith) first_insert.1)

Reach-HoldsMap_example :
    HoldsMap disk_manager keeps 4 heap_file pool
      (pool-IsSound empty_page empty_page 2 (omega arith))
      1
      first_insert.0
      written
Reach-HoldsMap_example =
    Reach-HoldsMap disk_manager keeps 4 heap_file pool
      (pool-IsSound empty_page empty_page 2 (omega arith)) (pool-Ready empty_page empty_page 2) 0
      refl (omega arith) one_page first_Reach (rw (ids empty_page empty_page 2) (omega arith))
      (omega arith)

Reach-get_example :
    (o : Option Record) × (b' : BufferManager DiskManager) × (get disk_manager first_insert.0 rid
      ≡ returned o b')
    × (Option.map (shown b') o ≡ some two_bytes)
Reach-get_example =
    Reach-get disk_manager keeps 4 heap_file pool
      (pool-IsSound empty_page empty_page 2 (omega arith)) (pool-Ready empty_page empty_page 2) 0
      refl (omega arith) one_page 1 first_insert.0 written rid first_Reach
      (rw (ids empty_page empty_page 2) (omega arith)) (omega arith) (inl refl)

-- The first insertion, into the empty page.
Reach-Step_example :
    (o : Option Rid) × (b' : BufferManager DiskManager) × (insert disk_manager 4 heap_file pool
        two_bytes
      ≡ returned (some o) (heap_file, b'))
    × Step disk_manager 4 heap_file pool [] b' (logged o two_bytes [])
Reach-Step_example =
    Reach-Step disk_manager keeps 4 heap_file pool
      (pool-IsSound empty_page empty_page 2 (omega arith)) (pool-Ready empty_page empty_page 2) 0
      refl (omega arith) one_page 0 pool [] (inserting two_bytes (omega arith)) start
      (rw (ids empty_page empty_page 2) (omega arith)) (omega arith)
