-- ===== src/Access/HeapFile/Pages.antt =====
-- Slotted pages with the same bytes from their offset on, and what their operations leave alone.
use cpp_relational_db.Base.{sym, ◌∙◌, ℕ, ◌<◌, ◌≤◌, ◌≡◌, List, false, arith, tabulate-congr}
use cpp_relational_db.Storage.Bytes.{Page, page_size}
use cpp_relational_db.Storage.SlottedPage
use cpp_relational_db.Storage.SlottedPage.{
  SlottedPage, Span, from_buffer, span_bytes, num_slots, slot_offset, slot_length, free_space,
  free_space_offset,
}
use cpp_relational_db.Storage.SlottedPage.Contents
use cpp_relational_db.Storage.SlottedPage.Contents.{
  contents, record_at, record_at-congr, live_record, get-contents, free_space-IsValid, slot_dir_end,
}
use cpp_relational_db.Storage.SlottedPage.Fields.{
  num_slots-congr, slot_offset-congr, slot_length-congr, free_space_offset-congr,
}

-- The same bytes from an offset to the end of the page.
abbrev pub SameFrom : ℕ → Page → Page → Type 0
SameFrom o x y = (i : ℕ) → o ≤ i → i < page_size → x i ≡ y i

-- Two pages with the same bytes from the slotted page on hold the same records.
pub contents-SameBytes :
    (s t : SlottedPage)
    → Contents.IsValid s
    → t.offset ≡ s.offset
    → SameFrom s.offset t.bytes s.bytes
    → contents t ≡ contents s
unfolding contents
contents-SameBytes s t v o same = rw count (
    tabulate-congr (record_at t) (record_at s) (num_slots s) (λ i l.
      record_at-congr s t i (slot_offset_same i l) (slot_length_same i l)
        (λ j a b. same j (omega (arith, v.dir, v.extent i l)) (omega (arith, v.extent i l)))))
  where
    count : num_slots t ≡ num_slots s
    count =
        num_slots-congr s t o
          (λ j a b. same j (omega (arith, v.dir, v.top)) (omega (arith, v.dir, v.top)))

    slot_offset_same : (i : ℕ) → i < num_slots s → slot_offset t i ≡ slot_offset s i
    slot_offset_same i l =
        slot_offset-congr s t o i
          (λ j a b. same j (omega (arith, v.dir, v.top)) (omega (arith, v.dir, v.top)))

    slot_length_same : (i : ℕ) → i < num_slots s → slot_length t i ≡ slot_length s i
    slot_length_same i l =
        slot_length-congr s t o i
          (λ j a b. same j (omega (arith, v.dir, v.top)) (omega (arith, v.dir, v.top)))

-- The operations of the slotted page keep its offset, and change nothing where they fail.
pub offset-insert :
    (sp : SlottedPage) (bs : List ℕ) → (SlottedPage.insert sp bs).0.offset ≡ sp.offset
unfolding SlottedPage.insert SlottedPage.count_slot SlottedPage.set_num_slots SlottedPage.add_slot
    SlottedPage.put_slot SlottedPage.put_data SlottedPage.write_record SlottedPage.take_space
    SlottedPage.set_free_space_offset
offset-insert sp bs = ground arith

module _ (sp : SlottedPage) (i : ℕ) where
  pub offset-update : (bs : List ℕ) → (SlottedPage.update sp i bs).0.offset ≡ sp.offset
  unfolding SlottedPage.update SlottedPage.overwrite SlottedPage.relocate SlottedPage.move_slot
      SlottedPage.take_space SlottedPage.put_data SlottedPage.set_slot_length
      SlottedPage.set_slot_offset SlottedPage.set_free_space_offset
  offset-update bs = ground arith

  pub update_failed :
      (bs : List ℕ)
      → (SlottedPage.update sp i bs).1 ≡ false
      → (SlottedPage.update sp i bs).0.bytes ≡ sp.bytes
  unfolding SlottedPage.update
  update_failed bs h = ground arith

  pub offset-delete : (SlottedPage.delete sp i).0.offset ≡ sp.offset
  unfolding SlottedPage.delete SlottedPage.set_slot_length
  offset-delete = ground arith

  pub delete_failed :
      (SlottedPage.delete sp i).1 ≡ false → (SlottedPage.delete sp i).0.bytes ≡ sp.bytes
  unfolding SlottedPage.delete
  delete_failed h = ground arith

-- Such pages are valid together, and have the same room.
pub IsValid-SameBytes :
    (s t : SlottedPage)
    → Contents.IsValid s
    → t.offset ≡ s.offset
    → SameFrom s.offset t.bytes s.bytes
    → Contents.IsValid t × (free_space t ≡ free_space s)
IsValid-SameBytes s t v o same = (
  valid,
  free_space-IsValid t valid ∙ (omega (arith, count, space, o)) ∙ sym (free_space-IsValid s v),
)
  where
    count : num_slots t ≡ num_slots s
    count =
        num_slots-congr s t o
          (λ j a b. same j (omega (arith, v.dir, v.top)) (omega (arith, v.dir, v.top)))

    space : free_space_offset t ≡ free_space_offset s
    space =
        free_space_offset-congr s t o
          (λ j a b. same j (omega (arith, v.dir, v.top)) (omega (arith, v.dir, v.top)))

    offset_same : (i : ℕ) → i < num_slots s → slot_offset t i ≡ slot_offset s i
    offset_same i l =
        slot_offset-congr s t o i
          (λ j a b. same j (omega (arith, v.dir, v.top)) (omega (arith, v.dir, v.top)))

    length_same : (i : ℕ) → i < num_slots s → slot_length t i ≡ slot_length s i
    length_same i l =
        slot_length-congr s t o i
          (λ j a b. same j (omega (arith, v.dir, v.top)) (omega (arith, v.dir, v.top)))

    valid : Contents.IsValid t
    valid = record {
      dir = omega (arith, count, space, o, v.dir);
      top = omega (arith, space, v.top);
      extent = λ i l.
          let l' : i < num_slots s = rw count at l in
          omega (arith, space, offset_same i l', length_same i l', v.extent i l');
      apart = λ i j l m ne.
          let l' : i < num_slots s = rw count at l in
          let m' : j < num_slots s = rw count at m in
          rw (offset_same i l', offset_same j m', length_same i l', length_same j m')
            (v.apart i j l' m' ne);
    }
