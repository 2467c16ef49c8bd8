-- ===== src/Storage/SlottedPage/InsertSteps.antt =====
-- The writes of `SlottedPage::Insert`, one after the other, on a page with room for the record: what
-- each field, slot and byte is in the end.
use cpp_relational_db.Base.{
  subst, sym, ℕ, ◌+◌, ◌-◌, ◌%◌, ◌^◌, ◌≤◌, ◌<◌, ◌≡◌, refl, ap, ap₂, ◌∙◌, ◌⊎◌, inl, inr, List, arith,
  length,
}
use cpp_relational_db.Storage.Bytes.{read_bytes-congr}
use cpp_relational_db.Storage.SlottedPage.{
  SlottedPage, size_of_slot, get_slot, num_slots, free_space_offset, slot_offset, slot_length,
  set_num_slots, set_free_space_offset, put_data, put_slot, take_space, write_record, add_slot,
  count_slot,
}
use cpp_relational_db.Storage.SlottedPage.Fields.{
  set_num_slots_out, set_free_space_offset_out, put_data_out, put_slot_out, num_slots-set_num_slots,
  free_space_offset-set_free_space_offset, slot_offset-put_slot, slot_length-put_slot,
  offset-put_data, offset-put_slot, offset-set_num_slots, free_space_offset-put_data,
  num_slots-put_slot, free_space_offset-put_slot, num_slots-congr, free_space_offset-congr,
  slot_offset-congr, slot_length-congr, read_bytes-put_data,
}
use cpp_relational_db.Storage.SlottedPage.Contents.{
  slot_dir_end, record_at, IsValid, record_at-congr,
}

-- `t` is `sp` with the record `bs` below its free space, behind one more slot.
pub record Appends (sp : SlottedPage) (bs : List ℕ) (t : SlottedPage) : Type 0 where
  pub offset : t.offset ≡ sp.offset
  pub count : num_slots t ≡ num_slots sp + 1
  pub space : free_space_offset t + length bs ≡ free_space_offset sp
  pub old_offset : (i : ℕ) → i < num_slots sp → slot_offset t i ≡ slot_offset sp i
  pub old_length : (i : ℕ) → i < num_slots sp → slot_length t i ≡ slot_length sp i
  pub old_record : (i : ℕ) → i < num_slots sp → record_at t i ≡ record_at sp i
  pub new_offset : slot_offset t (num_slots sp) ≡ free_space_offset t
  pub new_length : slot_length t (num_slots sp) ≡ length bs
  pub new_record : record_at t (num_slots sp) ≡ bs
  pub elsewhere : (j : ℕ) → (j < sp.offset) ⊎ (free_space_offset sp ≤ j) → t.bytes j ≡ sp.bytes j

-- `Insert` without its test.
unfoldable pub insert_record : SlottedPage → List ℕ → SlottedPage
insert_record sp bs = count_slot (add_slot (write_record sp bs) (length bs))

module _ (sp : SlottedPage) (v : IsValid sp) where
  -- `header->free_space_offset -= len`, where the length fits
  module _ (len : ℕ) (fits : len + slot_dir_end sp ≤ free_space_offset sp) where
    pub offset-take_space : (take_space sp len).offset ≡ sp.offset
    unfolding take_space set_free_space_offset
    offset-take_space = refl

    pub free_space_offset-take_space :
        free_space_offset (take_space sp len) ≡ free_space_offset sp - len
    unfolding take_space
    free_space_offset-take_space = omega (
      arith,
      v.top,
      free_space_offset-set_free_space_offset sp ((free_space_offset sp + 2 ^ 64 - len) % 2 ^ 16),
    )

    pub room_out :
        (j : ℕ)
        → (j < sp.offset + 2) ⊎ (sp.offset + 4 ≤ j)
        → (take_space sp len).bytes j ≡ sp.bytes j
    unfolding take_space
    room_out j h = set_free_space_offset_out sp _ j h

  module _ (bs : List ℕ)
      (fits : length bs + size_of_slot + slot_dir_end sp ≤ free_space_offset sp) where
    room_fits : length bs + slot_dir_end sp ≤ free_space_offset sp
    room_fits = omega arith

    -- The steps of `Insert`, one after the other.
    abbrev at : ℕ
    at = free_space_offset sp - length bs

    abbrev room : SlottedPage
    room = take_space sp (length bs)

    abbrev stored : SlottedPage
    stored = put_data room at bs

    abbrev slotted : SlottedPage
    slotted = put_slot stored (get_slot stored (num_slots sp)) at (length bs)

    behind : room.offset + 4 ≤ at
    behind = omega (arith, v.dir, offset-take_space (length bs) room_fits)

    offset-stored : stored.offset ≡ sp.offset
    offset-stored = offset-put_data room at bs ∙ offset-take_space (length bs) room_fits

    stored_out :
        (j : ℕ)
        → (j < sp.offset + 2) ⊎ ((sp.offset + 4 ≤ j) × (j < at)) ⊎ (free_space_offset sp ≤ j)
        → stored.bytes j ≡ sp.bytes j
    stored_out j h =
        put_data_out room at bs j (omega (arith, v.dir))
        ∙ room_out (length bs) room_fits j (omega (arith, v.dir))

    num_slots-stored : num_slots stored ≡ num_slots sp
    num_slots-stored =
        num_slots-congr sp stored offset-stored (λ j a b. stored_out j (inl (omega arith)))

    free_space_offset-stored : free_space_offset stored ≡ at
    free_space_offset-stored =
        free_space_offset-put_data room at behind bs
        ∙ free_space_offset-take_space (length bs) room_fits

    write_record_eq : write_record sp bs ≡ stored
    unfolding write_record
    write_record_eq =
        ap (λ a. put_data room a bs) (free_space_offset-take_space (length bs) room_fits)

    add_slot_eq : add_slot (write_record sp bs) (length bs) ≡ slotted
    unfolding add_slot
    add_slot_eq =
        rw (write_record_eq, num_slots-stored, free_space_offset-stored)
          (ap₂ (λ a l. put_slot stored a at l) (omega (arith, v.dir, v.top, offset-stored))
            (omega (arith, v.dir, v.top)))

    abbrev counted : SlottedPage
    counted = set_num_slots slotted (num_slots sp + 1)

    slotted_behind : stored.offset + 4 ≤ get_slot stored (num_slots sp)
    slotted_behind = omega arith

    num_slots-slotted : num_slots slotted ≡ num_slots sp
    num_slots-slotted = num_slots-put_slot stored _ slotted_behind at (length bs) ∙ num_slots-stored

    offset-slotted : slotted.offset ≡ sp.offset
    offset-slotted = offset-put_slot stored _ at (length bs) ∙ offset-stored

    insert_record_eq : insert_record sp bs ≡ counted
    unfolding insert_record count_slot
    insert_record_eq =
        rw (add_slot_eq, num_slots-slotted)
          (ap (λ n. set_num_slots slotted n) (omega (arith, v.dir, v.top)))

    offset-counted : counted.offset ≡ sp.offset
    offset-counted = offset-set_num_slots slotted _ ∙ offset-slotted

    num_slots-counted : num_slots counted ≡ num_slots sp + 1
    num_slots-counted =
        omega (arith, v.dir, v.top, num_slots-set_num_slots slotted (num_slots sp + 1))

    -- The count does not reach the rest of the page.
    counted-slotted : (j : ℕ) → sp.offset + 2 ≤ j → counted.bytes j ≡ slotted.bytes j
    counted-slotted j h = set_num_slots_out slotted _ j (omega (arith, offset-slotted))

    slotted-stored :
        (j : ℕ)
        → (j < slot_dir_end sp) ⊎ (slot_dir_end sp + 4 ≤ j)
        → slotted.bytes j ≡ stored.bytes j
    slotted-stored j h = put_slot_out stored _ at (length bs) j (omega (arith, offset-stored))

    -- Every byte that is neither a header field, nor the new slot, nor the new record.
    counted_out :
        (j : ℕ)
        → (j < sp.offset)
          ⊎ ((sp.offset + 4 ≤ j) × (j < slot_dir_end sp))
          ⊎ ((slot_dir_end sp + 4 ≤ j) × (j < at))
          ⊎ (free_space_offset sp ≤ j)
        → counted.bytes j ≡ sp.bytes j
    counted_out j h =
        set_num_slots_out slotted _ j (omega (arith, offset-slotted, v.dir))
        ∙ slotted-stored j (omega (arith, v.dir))
        ∙ stored_out j (omega (arith, v.dir))

    free_space_offset-counted : free_space_offset counted ≡ at
    free_space_offset-counted =
        free_space_offset-congr slotted counted (offset-set_num_slots slotted _)
          (λ j a b. counted-slotted j (omega (arith, offset-slotted)))
        ∙ free_space_offset-put_slot stored _ slotted_behind at (length bs)
        ∙ free_space_offset-stored

    -- The slots and the records that were there.
    module _ (i : ℕ) (h : i < num_slots sp) where
      old_slot_offset : slot_offset counted i ≡ slot_offset sp i
      old_slot_offset =
          slot_offset-congr sp counted offset-counted i
            (λ j a b. counted_out j (inr (inl (omega arith, omega arith))))

      old_slot_length : slot_length counted i ≡ slot_length sp i
      old_slot_length =
          slot_length-congr sp counted offset-counted i
            (λ j a b. counted_out j (inr (inl (omega arith, omega arith))))

      old_record : record_at counted i ≡ record_at sp i
      old_record =
          record_at-congr sp counted i old_slot_offset old_slot_length
            (λ j a b. counted_out j (omega (arith, v.extent i h)))

    counted_slot_same :
        (j : ℕ)
        → get_slot slotted (num_slots sp) ≤ j
        → j < get_slot slotted (num_slots sp) + 4
        → counted.bytes j ≡ slotted.bytes j
    counted_slot_same j a b = counted-slotted j (omega (arith, offset-slotted))

    new_slot_offset : slot_offset counted (num_slots sp) ≡ at
    new_slot_offset =
        slot_offset-congr slotted counted (offset-set_num_slots slotted _) (num_slots sp)
          counted_slot_same
        ∙ slot_offset-put_slot stored (num_slots sp) at (length bs)
        ∙ omega (arith, v.top)

    new_slot_length : slot_length counted (num_slots sp) ≡ length bs
    new_slot_length =
        slot_length-congr slotted counted (offset-set_num_slots slotted _) (num_slots sp)
          counted_slot_same
        ∙ slot_length-put_slot stored (num_slots sp) at (length bs)
        ∙ omega (arith, v.top)

    new_record : record_at counted (num_slots sp) ≡ bs
    unfolding record_at
    new_record =
        rw (new_slot_offset, new_slot_length)
          (read_bytes-congr counted.bytes stored.bytes at (length bs) (λ j a b.
              counted-slotted j (omega (arith, v.dir)) ∙ slotted-stored j (inr (omega arith)))
            ∙ read_bytes-put_data room at bs)

    pub insert_record-Appends : Appends sp bs (insert_record sp bs)
    insert_record-Appends = subst (Appends sp bs) (sym insert_record_eq) (record {
      offset = offset-counted;
      count = num_slots-counted;
      space = omega (arith, free_space_offset-counted);
      old_offset = old_slot_offset;
      old_length = old_slot_length;
      old_record = old_record;
      new_offset = new_slot_offset ∙ sym free_space_offset-counted;
      new_length = new_slot_length;
      new_record = new_record;
      elsewhere = λ j h. counted_out j (omega (arith, v.dir));
    })

    -- The slot id that `Insert` returns is the number of slots before it.
    pub num_slots-add_slot : num_slots (add_slot (write_record sp bs) (length bs)) ≡ num_slots sp
    num_slots-add_slot = rw add_slot_eq num_slots-slotted
