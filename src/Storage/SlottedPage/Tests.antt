-- ===== src/Storage/SlottedPage/Tests.antt =====
-- A small slotted page, run.
use mathlib.Core.Option
use cpp_relational_db.Base.{arith, ◌+◌, ◌<◌, ◌≤◌, ◌≡◌, refl, some, [], ◌∷◌}
use cpp_relational_db.Storage.Bytes.{page_size, copy_in, read_bytes, read_u16, write_u16}
use cpp_relational_db.Storage.SlottedPage.Contents.{IsValid, slot_dir_end, contents}
use cpp_relational_db.Storage.SlottedPage.Insert.{init-IsValid, insert_spec, insert-insert_spec}
use cpp_relational_db.Storage.SlottedPage.Bounds.{get_bounds}
use cpp_relational_db.Storage.SlottedPage.Update.{update_spec, update-update_spec}
use cpp_relational_db.Storage.SlottedPage.{
  SlottedPage, Span, from_buffer, init, insert, get, update, delete, span_bytes, num_slots,
  free_space_offset, slot_offset, slot_length, set_num_slots, set_free_space_offset,
  set_slot_offset, set_slot_length, put_data, put_slot, free_space, take_space, add_slot,
  count_slot, write_record, overwrite, move_slot, relocate,
}

abbrev empty_page : SlottedPage
empty_page = from_buffer (init (λ _. 255) 8) 8

abbrev two_records : SlottedPage
two_records = (insert (insert empty_page (7 ∷ 8 ∷ 9 ∷ [])).0 (1 ∷ [])).0

test_get : Option.map (span_bytes two_records) (get two_records 0) ≡ some (7 ∷ 8 ∷ 9 ∷ [])
unfolding from_buffer init insert get update delete span_bytes num_slots free_space_offset
    slot_offset slot_length set_num_slots set_free_space_offset set_slot_offset set_slot_length
    put_data put_slot free_space take_space add_slot count_slot write_record overwrite move_slot
    relocate copy_in read_bytes read_u16 write_u16
test_get = refl

test_free_space : free_space two_records ≡ 8168
unfolding from_buffer init insert get update delete span_bytes num_slots free_space_offset
    slot_offset slot_length set_num_slots set_free_space_offset set_slot_offset set_slot_length
    put_data put_slot free_space take_space add_slot count_slot write_record overwrite move_slot
    relocate copy_in read_bytes read_u16 write_u16
test_free_space = refl

init_empty_page : IsValid empty_page × (contents empty_page ≡ [])
init_empty_page = init-IsValid (λ _. 255) 8 (omega arith)

insert-insert_spec_example :
    ((contents (insert empty_page (7 ∷ 8 ∷ [])).0, (insert empty_page (7 ∷ 8 ∷ [])).1)
      ≡ insert_spec (free_space empty_page) (contents empty_page) (7 ∷ 8 ∷ []))
    × IsValid (insert empty_page (7 ∷ 8 ∷ [])).0
insert-insert_spec_example =
    insert-insert_spec empty_page (7 ∷ 8 ∷ []) init_empty_page.0 (omega arith)

abbrev one_record : SlottedPage
one_record = (insert empty_page (7 ∷ 8 ∷ [])).0

one_record-IsValid : IsValid one_record
one_record-IsValid = (insert-insert_spec empty_page (7 ∷ 8 ∷ []) init_empty_page.0 (omega arith)).1

update-update_spec_example :
    ((contents (update one_record 0 (1 ∷ 2 ∷ 3 ∷ [])).0, (update one_record 0 (1 ∷ 2 ∷ 3 ∷ [])).1)
      ≡ update_spec (free_space one_record) (contents one_record) 0 (1 ∷ 2 ∷ 3 ∷ []))
    × IsValid (update one_record 0 (1 ∷ 2 ∷ 3 ∷ [])).0
update-update_spec_example = update-update_spec one_record one_record-IsValid 0 (1 ∷ 2 ∷ 3 ∷ [])

abbrev first_span : Span
first_span = record { start = 8190; size = 2 }

get_first : get one_record 0 ≡ some first_span
unfolding from_buffer init insert get num_slots free_space_offset slot_offset slot_length
    set_num_slots set_free_space_offset put_data put_slot free_space take_space add_slot count_slot
    write_record copy_in read_u16 write_u16
get_first = refl

get_bounds_example :
    (0 < num_slots one_record)
    × (0 < first_span.size)
    × (slot_dir_end one_record ≤ first_span.start)
    × (first_span.start + first_span.size ≤ page_size)
get_bounds_example = get_bounds one_record one_record-IsValid 0 first_span get_first
