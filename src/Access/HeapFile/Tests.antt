-- ===== src/Access/HeapFile/Tests.antt =====
-- A heap page with one record in a file, read through a pool of two frames.
use cpp_relational_db.Base.{zero, suc, subst, ℕ, ◌+◌, ◌*◌, ◌≡◌, [], ◌∷◌, refl, arith, Option, ap}
use cpp_relational_db.Storage.Bytes.{Page, page_size, copy_in, read_u16, write_u16}
use cpp_relational_db.Storage.SlottedPage.{
  SlottedPage, from_buffer, init, insert, num_slots, free_space_offset, set_num_slots,
  set_free_space_offset, put_data, put_slot, free_space, take_space, add_slot, count_slot,
  write_record,
}
use cpp_relational_db.Storage.SlottedPage.Contents
use cpp_relational_db.Storage.SlottedPage.Insert.{init-IsValid, insert-insert_spec}
use cpp_relational_db.Storage.DiskManager.{DiskManager, disk_manager}
use cpp_relational_db.Storage.DiskManager.Pages.{Stores, disk_manager-KeepsPages}
use cpp_relational_db.Storage.BufferManager.{BufferManager, new_buffer_manager, frame, returned}
use cpp_relational_db.Storage.BufferManager.Invariant.{IsValid, Holds}
use cpp_relational_db.Storage.BufferManager.Start.{
  new_buffer_manager-IsValid, new_buffer_manager-Holds,
}
use cpp_relational_db.Access.HeapFile.{Record, size_of_heap_page_header, get, Rid, update, delete}
use cpp_relational_db.Storage.SlottedPage.Contents.{contents}
use cpp_relational_db.Storage.SlottedPage.Update.{update_spec, delete_spec}
use cpp_relational_db.Access.HeapFile.Writes.{Written, update-Written, delete-Written}
use cpp_relational_db.Access.HeapFile.Reads.{HasPinRoom, Read, get-Read}

abbrev one_record : SlottedPage
one_record = (insert (from_buffer (init (λ _. 0) 8) 8) (5 ∷ 6 ∷ [])).0

abbrev heap_page : Page
heap_page = one_record.bytes

abbrev file : DiskManager
file = record { db_io = record { size = 8192; byte = heap_page }; free_list = []; next_page_id = 1 }

abbrev pool : BufferManager DiskManager
pool = new_buffer_manager 2 (λ _. 0) file

file-Stores : Stores file 0 heap_page
file-Stores = record {
  id = omega arith;
  within = omega arith;
  bytes = λ i l. let same : 0 * page_size + i ≡ i = omega arith in ap heap_page same;
}

pool-IsValid : IsValid pool
pool-IsValid = new_buffer_manager-IsValid 2 (λ _. 0) file (omega arith)

pool-Holds : Holds Stores pool 0 heap_page
pool-Holds = new_buffer_manager-Holds 2 (λ _. 0) file Stores 0 heap_page file-Stores

pool_pins : (g : ℕ) → (frame pool g).pin_count ≡ 0
unfolding new_buffer_manager
pool_pins zero = refl
pool_pins (suc zero) = refl
pool_pins (suc (suc g)) = refl

pool-HasPinRoom : HasPinRoom pool
pool-HasPinRoom g = omega (arith, pool_pins g)

offset-one_record : one_record.offset ≡ size_of_heap_page_header
unfolding from_buffer init insert num_slots free_space_offset set_num_slots set_free_space_offset
    put_data put_slot free_space take_space add_slot count_slot write_record copy_in read_u16
    write_u16
offset-one_record = refl

heap_page-IsValid : Contents.IsValid (from_buffer heap_page size_of_heap_page_header)
unfolding from_buffer
heap_page-IsValid =
    subst (λ o. Contents.IsValid (record { bytes = heap_page; offset = o })) offset-one_record
      (insert-insert_spec (from_buffer (init (λ _. 0) 8) 8) (5 ∷ 6 ∷ [])
        (init-IsValid (λ _. 0) 8 (omega arith)).0 (omega arith)).1

get-Read_example :
    (r : Option Record) × (b' : BufferManager DiskManager) × (get disk_manager pool
        (record { page_id = 0; slot_id = 0 })
      ≡ returned r b')
    × Read disk_manager disk_manager-KeepsPages pool
        (record { page_id = 0; slot_id = 0 })
        heap_page
        pool-IsValid
        (omega arith)
        pool-HasPinRoom
        pool-Holds
        heap_page-IsValid
        r
        b'
get-Read_example =
    get-Read disk_manager disk_manager-KeepsPages pool (record { page_id = 0; slot_id = 0 })
      heap_page pool-IsValid (omega arith) pool-HasPinRoom pool-Holds heap_page-IsValid 0
      (unfold new_buffer_manager in omega arith) (pool_pins 0)

abbrev first : Rid
first = record { page_id = 0; slot_id = 0 }

abbrev old_page : SlottedPage
old_page = from_buffer heap_page size_of_heap_page_header

update-Written_example :
    (b' : BufferManager DiskManager) × (update disk_manager pool (9 ∷ []) first
      ≡ returned (update_spec (free_space old_page) (contents old_page) 0 (9 ∷ [])).1 b')
    × Written disk_manager disk_manager-KeepsPages pool first heap_page pool-IsValid
        (omega arith)
        pool-HasPinRoom
        pool-Holds
        heap_page-IsValid
        (update_spec (free_space old_page) (contents old_page) 0 (9 ∷ [])).0
        b'
update-Written_example =
    update-Written disk_manager disk_manager-KeepsPages pool first heap_page pool-IsValid
      (omega arith) pool-HasPinRoom pool-Holds heap_page-IsValid 0
      (unfold new_buffer_manager in omega arith) (pool_pins 0) (9 ∷ [])

delete-Written_example :
    (b' : BufferManager DiskManager) × (delete disk_manager pool first
      ≡ returned (delete_spec (contents old_page) 0).1 b')
    × Written disk_manager disk_manager-KeepsPages pool first heap_page pool-IsValid
        (omega arith)
        pool-HasPinRoom
        pool-Holds
        heap_page-IsValid
        (delete_spec (contents old_page) 0).0
        b'
delete-Written_example =
    delete-Written disk_manager disk_manager-KeepsPages pool first heap_page pool-IsValid
      (omega arith) pool-HasPinRoom pool-Holds heap_page-IsValid 0
      (unfold new_buffer_manager in omega arith) (pool_pins 0)
