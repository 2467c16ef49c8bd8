-- ===== src/Storage/SlottedPage.antt =====
-- include/storage/page/slotted_page.h and src/storage/page/slotted_page.cpp: records of varying
-- length behind a slot directory. A `SlottedPage` is the memory that `_data` points to with
-- `_offset`; each method returns the memory after its writes. `size_t` is 64 bits wide; the
-- length of a buffer stands for the `len` that is passed beside it.
pub mod Fields
pub mod Contents
pub mod Bounds
pub mod InsertSteps
pub mod Insert
pub mod UpdateSteps
pub mod Update
mod Tests
use cpp_relational_db.Base.{
  ℕ, ◌+◌, ◌-◌, ◌*◌, ◌%◌, ◌^◌, Bool, true, false, Option, none, some, List, ◌++◌, ltb, leb, ◌==◌,
  if◌then◌else◌, length,
}
use cpp_relational_db.Storage.Bytes.{
  Page, page_size, copy_in, read_bytes, read_u16, u16_bytes, write_u16,
}

pub record SlottedPage : Type 0 where
  pub bytes : Page
  pub offset : ℕ

-- `sizeof(Slot)` and `sizeof(PageHeader)`
abbrev pub size_of_slot : ℕ
size_of_slot = 4

abbrev pub size_of_page_header : ℕ
size_of_page_header = 4

unfoldable pub from_buffer : Page → ℕ → SlottedPage
from_buffer page_data offset = record { bytes = page_data; offset = offset }

-- The fields of `*GetHeader()`.
unfoldable pub num_slots : SlottedPage → ℕ
num_slots sp = read_u16 sp.bytes sp.offset

unfoldable pub free_space_offset : SlottedPage → ℕ
free_space_offset sp = read_u16 sp.bytes (sp.offset + 2)

unfoldable pub set_num_slots : SlottedPage → ℕ → SlottedPage
set_num_slots sp v = record sp { bytes = write_u16 sp.bytes sp.offset v }

unfoldable pub set_free_space_offset : SlottedPage → ℕ → SlottedPage
set_free_space_offset sp v = record sp { bytes = write_u16 sp.bytes (sp.offset + 2) v }

-- `GetSlot(slot_id)`, an address, and the fields there.
abbrev pub get_slot : SlottedPage → ℕ → ℕ
get_slot sp slot_id = sp.offset + size_of_page_header + slot_id * size_of_slot

unfoldable pub slot_offset : SlottedPage → ℕ → ℕ
slot_offset sp slot_id = read_u16 sp.bytes (get_slot sp slot_id)

unfoldable pub slot_length : SlottedPage → ℕ → ℕ
slot_length sp slot_id = read_u16 sp.bytes (get_slot sp slot_id + 2)

unfoldable pub set_slot_offset : SlottedPage → ℕ → ℕ → SlottedPage
set_slot_offset sp slot_id v = record sp { bytes = write_u16 sp.bytes (get_slot sp slot_id) v }

unfoldable pub set_slot_length : SlottedPage → ℕ → ℕ → SlottedPage
set_slot_length sp slot_id v = record sp { bytes = write_u16 sp.bytes (get_slot sp slot_id + 2) v }

-- `memcpy` of record data, and of a whole slot, to an address of the page.
unfoldable pub put_data : SlottedPage → ℕ → List ℕ → SlottedPage
put_data sp a bs = record sp { bytes = copy_in sp.bytes a bs }

unfoldable pub put_slot : SlottedPage → ℕ → ℕ → ℕ → SlottedPage
unfolding put_data
put_slot sp a off len = put_data sp a (u16_bytes off ++ u16_bytes len)

unfoldable pub init : Page → ℕ → Page
unfolding from_buffer set_num_slots set_free_space_offset
init page_data offset =
    (set_free_space_offset (set_num_slots (from_buffer page_data offset) 0) page_size).bytes

unfoldable pub free_space : SlottedPage → ℕ
free_space sp =
    let slot_dir_end = sp.offset + size_of_page_header + num_slots sp * size_of_slot in
    (free_space_offset sp + 2 ^ 64 - slot_dir_end) % 2 ^ 64

-- `header->free_space_offset -= len`
unfoldable pub take_space : SlottedPage → ℕ → SlottedPage
take_space sp len = set_free_space_offset sp ((free_space_offset sp + 2 ^ 64 - len) % 2 ^ 16)

-- The data goes below the free space that is left, and a slot for it behind the directory.
unfoldable pub add_slot : SlottedPage → ℕ → SlottedPage
add_slot sp len =
    put_slot sp ((sp.offset + size_of_page_header + num_slots sp * size_of_slot) % 2 ^ 16)
      (free_space_offset sp) (len % 2 ^ 16)

unfoldable pub count_slot : SlottedPage → SlottedPage
count_slot sp = set_num_slots sp ((num_slots sp + 1) % 2 ^ 16)

unfoldable pub write_record : SlottedPage → List ℕ → SlottedPage
write_record sp bs =
    let room = take_space sp (length bs) in put_data room (free_space_offset room) bs

unfoldable pub insert : SlottedPage → List ℕ → SlottedPage × Option ℕ
insert sp bs =
    let slotted = add_slot (write_record sp bs) (length bs) in
    if ltb (free_space sp) ((length bs + size_of_slot) % 2 ^ 64)
    then (sp, none)
    else (count_slot slotted, some (num_slots slotted))

-- `std::span<const char>` into the page: an address and a length.
pub record Span : Type 0 where
  pub start : ℕ
  pub size : ℕ

unfoldable pub get : SlottedPage → ℕ → Option Span
get sp slot_id =
    if leb (num_slots sp) slot_id
    then none
    else if slot_length sp slot_id == 0
    then none
    else some (record { start = slot_offset sp slot_id; size = slot_length sp slot_id })

-- What the span shows while the page is as it is.
unfoldable pub span_bytes : SlottedPage → Span → List ℕ
span_bytes sp s = read_bytes sp.bytes s.start s.size

-- Case 1 of `Update`: the new data fits where the old data is.
unfoldable pub overwrite : SlottedPage → ℕ → List ℕ → SlottedPage
overwrite sp slot_id bs =
    set_slot_length (put_data sp (slot_offset sp slot_id) bs) slot_id (length bs % 2 ^ 16)

-- Case 2: it goes to new space.
unfoldable pub move_slot : SlottedPage → ℕ → ℕ → SlottedPage
move_slot sp slot_id len =
    let room = take_space sp len in
    set_slot_length (set_slot_offset room slot_id (free_space_offset room)) slot_id (len % 2 ^ 16)

unfoldable pub relocate : SlottedPage → ℕ → List ℕ → SlottedPage
relocate sp slot_id bs =
    let moved = move_slot sp slot_id (length bs) in put_data moved (free_space_offset moved) bs

unfoldable pub update : SlottedPage → ℕ → List ℕ → SlottedPage × Bool
update sp slot_id bs =
    if leb (num_slots sp) slot_id
    then (sp, false)
    else if leb (length bs) (slot_length sp slot_id)
    then (overwrite sp slot_id bs, true)
    else if ltb (free_space sp) (length bs)
    then (sp, false)
    else (relocate sp slot_id bs, true)

unfoldable pub delete : SlottedPage → ℕ → SlottedPage × Bool
delete sp slot_id =
    if leb (num_slots sp) slot_id then (sp, false) else (set_slot_length sp slot_id 0, true)
