-- ===== src/Storage/BufferManager/Tests.antt =====
-- A pool of two frames over a file of one page, run.
use cpp_relational_db.Base.{[], ℕ, ◌<◌, ◌≡◌, ◌≢◌, refl, some, arith, length}
use cpp_relational_db.Storage.Bytes.{Page, SameBytes}
use cpp_relational_db.Storage.FreeList
use cpp_relational_db.Storage.DiskManager.{DiskManager, disk_manager}
use cpp_relational_db.Storage.DiskManager.Pages.{Stores, disk_manager-KeepsPages}
use cpp_relational_db.Storage.ClockPolicy.{new_clock, index_frames, set_ref_bit, record_load}
use cpp_relational_db.Storage.BufferManager.{
  BufferManager, Outcome, returned, thrown, frame, new_buffer_manager, pin, mark_dirty, write_data,
  release, read, load, load_free, request, flush_all,
}
use cpp_relational_db.Storage.BufferManager.Invariant.{IsValid, Holds, Preserves}
use cpp_relational_db.Storage.BufferManager.Clients.{request_served, request_shows, write_lem}
use cpp_relational_db.Storage.BufferManager.Release.{Released, release-Released}
use cpp_relational_db.Storage.BufferManager.FlushAll.{flush_all_lem}
use cpp_relational_db.Storage.BufferManager.Start.{
  new_buffer_manager-IsValid, new_buffer_manager-Holds,
}

abbrev disk : DiskManager
disk = record { db_io = record { size = 8192; byte = λ _. 7 }; free_list = []; next_page_id = 1 }

abbrev sevens : Page
sevens = λ _. 7

disk-Stores : Stores disk 0 sevens
disk-Stores = record { id = omega arith; within = omega arith; bytes = λ i l. refl }

abbrev empty_pool : BufferManager DiskManager
empty_pool = new_buffer_manager 2 (λ _. 0) disk

abbrev state_of : {S A : Type 0} → Outcome S A → S
state_of (returned a s) = s
state_of (thrown e s) = s

-- The pool after `request(0)`.
abbrev one_pinned : BufferManager DiskManager
one_pinned = state_of (request disk_manager empty_pool 0)

test_request : request disk_manager empty_pool 0 ≡ returned 1 one_pinned
unfolding request new_buffer_manager load_free load read pin set_ref_bit record_load new_clock
    index_frames FreeList.empty FreeList.get FreeList.add
test_request = refl

empty_pool-IsValid : IsValid empty_pool
empty_pool-IsValid = new_buffer_manager-IsValid 2 (λ _. 0) disk (omega arith)

one_pinned-IsValid : IsValid one_pinned
one_pinned-IsValid =
    (request_served disk_manager disk_manager-KeepsPages empty_pool one_pinned 0 1
      empty_pool-IsValid (omega arith) test_request).valid

one_pinned_there : one_pinned.page_table 0 ≡ some 1
one_pinned_there =
    (request_served disk_manager disk_manager-KeepsPages empty_pool one_pinned 0 1
      empty_pool-IsValid (omega arith) test_request).there

empty_pool-Holds : Holds Stores empty_pool 0 sevens
empty_pool-Holds = new_buffer_manager-Holds 2 (λ _. 0) disk Stores 0 sevens disk-Stores

one_pinned_pins : (frame one_pinned 1).pin_count ≡ 1
unfolding request new_buffer_manager load_free load read pin set_ref_bit record_load new_clock
    index_frames FreeList.empty FreeList.get FreeList.add
one_pinned_pins = refl

request_shows_example : SameBytes (frame one_pinned 1).bytes sevens
request_shows_example =
    request_shows disk_manager disk_manager-KeepsPages empty_pool one_pinned 0 1 sevens
      empty_pool-IsValid (omega arith) test_request empty_pool-Holds

write_lem_example :
    IsValid (mark_dirty (write_data one_pinned 1 (λ _. 9)) 1)
    × Holds Stores (mark_dirty (write_data one_pinned 1 (λ _. 9)) 1) 0 (λ _. 9)
    × ((p : ℕ) (y : Page)
        → p ≢ 0
        → Holds Stores one_pinned p y
        → Holds Stores (mark_dirty (write_data one_pinned 1 (λ _. 9)) 1) p y)
write_lem_example =
    write_lem disk_manager disk_manager-KeepsPages one_pinned 0 1 (λ _. 9) one_pinned-IsValid
      one_pinned_there

release-Released_example : Released one_pinned 0 (release one_pinned 0)
release-Released_example = release-Released one_pinned 0 one_pinned-IsValid

flush_all_lem_example :
    IsValid (flush_all disk_manager one_pinned)
    × Preserves Stores one_pinned (flush_all disk_manager one_pinned)
    × ((p : ℕ) (x : Page)
        → Holds Stores one_pinned p x
        → Stores (flush_all disk_manager one_pinned).disk p x)
    × ((f : ℕ)
        → f < length one_pinned.pool
        → (frame (flush_all disk_manager one_pinned) f).dirty ≡ 0)
flush_all_lem_example =
    flush_all_lem disk_manager disk_manager-KeepsPages one_pinned one_pinned-IsValid
