-- ===== src/Storage/SlottedPage/Insert.antt =====
-- `SlottedPage::Init` and `SlottedPage::Insert`: a page starts empty, and an insertion that fits
-- appends its record to the array, while one that does not fit changes nothing.
use native.Mathlib.Numerals.{add-one}
use cpp_relational_db.Base.{
  ℕ, ◌+◌, ◌-◌, ◌%◌, ◌^◌, ◌≤◌, ◌<◌, ◌≡◌, ◌≢◌, refl, ap, ap₂, ◌∙◌, ◌⊎◌, inl, inr, Option, none, some,
  List, [], ◌∷◌, ◌++◌, true, false, arith, ltb, Bool-cases, ltb→le, eq_or_ne, length, tabulate,
  tabulate-suc, tabulate-congr, if◌then◌else◌,
}
use cpp_relational_db.Storage.Bytes.{
  write_u16, write_u16_out, read_u16-write_u16_self, read_u16-write_u16_out, Page, page_size,
}
use cpp_relational_db.Storage.SlottedPage.{
  SlottedPage, size_of_slot, size_of_page_header, from_buffer, init, num_slots, free_space_offset,
  slot_offset, slot_length, free_space, set_num_slots, set_free_space_offset, insert,
}
use cpp_relational_db.Storage.SlottedPage.InsertSteps.{
  Appends, insert_record, insert_record-Appends, num_slots-add_slot,
}
use cpp_relational_db.Storage.SlottedPage.Contents.{
  slot_dir_end, record_at, contents, length-contents, IsValid, free_space-IsValid,
}

module _ (m : Page) (offset : ℕ) where
  init_offset : (from_buffer (init m offset) offset).offset ≡ offset
  unfolding from_buffer
  init_offset = refl

  num_slots-init : num_slots (from_buffer (init m offset) offset) ≡ 0
  unfolding init from_buffer num_slots set_num_slots set_free_space_offset
  num_slots-init =
      read_u16-write_u16_out (write_u16 m offset 0) (offset + 2) offset page_size (omega arith)
      ∙ read_u16-write_u16_self m offset 0

  free_space_offset-init : free_space_offset (from_buffer (init m offset) offset) ≡ page_size
  unfolding init from_buffer free_space_offset set_num_slots set_free_space_offset
  free_space_offset-init = read_u16-write_u16_self (write_u16 m offset 0) (offset + 2) page_size

-- A page that is initialised at an offset that leaves room for its header is valid and holds no
-- record.
pub init-IsValid :
    (m : Page) (offset : ℕ)
    → offset + size_of_page_header ≤ page_size
    → IsValid (from_buffer (init m offset) offset)
      × (contents (from_buffer (init m offset) offset) ≡ [])
unfolding contents
init-IsValid m offset h = (
  record {
    dir =
        omega
          (arith, num_slots-init m offset, free_space_offset-init m offset, init_offset m offset);
    top = omega (arith, free_space_offset-init m offset);
    extent = λ i l. absurd (omega (arith, num_slots-init m offset));
    apart = λ i j l. absurd (omega (arith, num_slots-init m offset));
  },
  rw (num_slots-init m offset),
)

-- The bytes in front of its header stay as they were.
pub init_before : (m : Page) (offset j : ℕ) → j < offset → init m offset j ≡ m j
unfolding init from_buffer set_num_slots set_free_space_offset
init_before m offset j h =
    write_u16_out (write_u16 m offset 0) (offset + 2) page_size j (inl (omega arith))
    ∙ write_u16_out m offset 0 j (inl h)

-- The room of a page that was initialised.
pub free_space-init :
    (m : Page) (offset : ℕ)
    → offset + size_of_page_header ≤ page_size
    → free_space (from_buffer (init m offset) offset) ≡ page_size - (offset + size_of_page_header)
free_space-init m offset h = omega (
  arith,
  free_space-IsValid _ (init-IsValid m offset h).0,
  num_slots-init m offset,
  free_space_offset-init m offset,
  init_offset m offset,
)

-- A page after an insertion.
module _ (sp t : SlottedPage) (bs : List ℕ) (v : IsValid sp)
    (fits : length bs + size_of_slot + slot_dir_end sp ≤ free_space_offset sp)
    (a : Appends sp bs t) where
  extent :
      (i : ℕ)
      → i < num_slots t
      → (free_space_offset t ≤ slot_offset t i) × (slot_offset t i + slot_length t i ≤ page_size)
  extent i h = elim (eq_or_ne i (num_slots sp)) [
    | inl new ↦ rw new (omega (arith, a.new_offset, a.new_length, a.space, v.top))
    | inr old ↦
        let l : i < num_slots sp = omega (arith, a.count) in
        omega (arith, v.extent i l, a.old_offset i l, a.old_length i l, a.space)
  ]

  -- The new record lies below every old one.
  new_below :
      (i : ℕ)
      → i < num_slots sp
      → slot_offset t (num_slots sp) + slot_length t (num_slots sp) ≤ slot_offset t i
  new_below i l = omega (arith, v.extent i l, a.old_offset i l, a.new_offset, a.new_length, a.space)

  apart :
      (i j : ℕ)
      → i < num_slots t
      → j < num_slots t
      → i ≢ j
      → (slot_offset t i + slot_length t i ≤ slot_offset t j)
        ⊎ (slot_offset t j + slot_length t j ≤ slot_offset t i)
  apart i j h k ne = elim (eq_or_ne i (num_slots sp)) [
    | inl new ↦ inl (rw new (new_below j (omega (arith, a.count))))
    | inr old ↦ elim (eq_or_ne j (num_slots sp)) [
      | inl new' ↦ inr (rw new' (new_below i (omega (arith, a.count))))
      | inr old' ↦
          let l : i < num_slots sp = omega (arith, a.count) in
          let l' : j < num_slots sp = omega (arith, a.count) in
          rw (a.old_offset i l, a.old_length i l, a.old_offset j l', a.old_length j l')
            (v.apart i j l l' ne)
    ]
  ]

  pub Appends-IsValid : IsValid t
  Appends-IsValid = record {
    dir = omega (arith, a.offset, a.count, a.space);
    top = omega (arith, a.space, v.top);
    extent = extent;
    apart = apart;
  }

  pub contents-Appends : contents t ≡ contents sp ++ bs ∷ []
  unfolding contents
  contents-Appends = rw a.count (
      ap (λ n. tabulate (record_at t) n) (add-one (num_slots sp))
      ∙ tabulate-suc (record_at t) (num_slots sp)
      ∙ ap₂ (λ rs r. rs ++ r ∷ [])
          (tabulate-congr (record_at t) (record_at sp) (num_slots sp) a.old_record) a.new_record)

-- The array's insertion, where `room` bytes are free: a record needs its bytes and a slot.
unfoldable pub insert_spec : ℕ → List (List ℕ) → List ℕ → List (List ℕ) × Option ℕ
insert_spec room rs bs =
    if ltb room (length bs + size_of_slot) then (rs, none) else (rs ++ bs ∷ [], some (length rs))

pub insert_spec_room :
    (room : ℕ) (rs : List (List ℕ)) (bs : List ℕ)
    → ltb room (length bs + size_of_slot) ≡ false
    → insert_spec room rs bs ≡ (rs ++ bs ∷ [], some (length rs))
unfolding insert_spec
insert_spec_room room rs bs h = rw h

module _ (sp : SlottedPage) (bs : List ℕ) (v : IsValid sp)
    (small : length bs + size_of_slot < 2 ^ 64) where
  wanted : (length bs + size_of_slot) % 2 ^ 64 ≡ length bs + size_of_slot
  wanted = omega arith

  pub insert_full :
      ltb (free_space sp) (length bs + size_of_slot) ≡ true → insert sp bs ≡ (sp, none)
  unfolding insert
  insert_full h = rw (wanted, h)

  module _ (h : ltb (free_space sp) (length bs + size_of_slot) ≡ false) where
    fits : length bs + size_of_slot + slot_dir_end sp ≤ free_space_offset sp
    fits = omega (arith, free_space-IsValid sp v, v.dir, ltb→le _ _ h)

    pub insert_room : insert sp bs ≡ (insert_record sp bs, some (num_slots sp))
    unfolding insert insert_record
    insert_room = rw (wanted, h, num_slots-add_slot sp v bs fits)

    pub insert_record_lem : Appends sp bs (insert_record sp bs) × IsValid (insert_record sp bs)
    insert_record_lem =
        let a = insert_record-Appends sp v bs fits in
        (a, Appends-IsValid sp (insert_record sp bs) bs v fits a)

  -- On a valid page, `Insert` of a buffer whose length with that of a slot fits 64 bits does to
  -- the array of records what `insert_spec` says, with `FreeSpace()` for the room, and the page
  -- stays valid.
  pub insert-insert_spec :
      ((contents (insert sp bs).0, (insert sp bs).1) ≡ insert_spec (free_space sp) (contents sp) bs)
      × IsValid (insert sp bs).0
  unfolding insert_spec
  insert-insert_spec = elim (Bool-cases (ltb (free_space sp) (length bs + size_of_slot))) [
    | inl full ↦ rw (insert_full full, full) (refl, v)
    | inr free ↦
        let (a, w) = insert_record_lem free in
        rw (insert_room free, free, length-contents sp)
          (
            ap (λ rs. (rs, some (num_slots sp)))
                (contents-Appends sp (insert_record sp bs) bs v (fits free) a),
            w,
          )
  ]

  -- An insertion that fits takes the record's bytes and a slot from the free space.
  pub insert_space :
      ltb (free_space sp) (length bs + size_of_slot) ≡ false
      → free_space (insert sp bs).0 ≡ free_space sp - (length bs + size_of_slot)
  insert_space h =
      let (a, w) = insert_record_lem h in
      rw (insert_room h) (
        omega (
          arith,
          a.offset,
          a.count,
          a.space,
          free_space-IsValid sp v,
          free_space-IsValid (insert_record sp bs) w,
          fits h,
          v.dir,
          w.dir,
        ))

  -- On a valid page, `Insert` of such a buffer changes no byte in front of the header and none
  -- from the free-space offset on, where the records lie and the page ends.
  pub insert_elsewhere :
      (j : ℕ) → (j < sp.offset) ⊎ (free_space_offset sp ≤ j) → (insert sp bs).0.bytes j ≡ sp.bytes j
  insert_elsewhere j h = elim (Bool-cases (ltb (free_space sp) (length bs + size_of_slot))) [
    | inl full ↦ rw (insert_full full)
    | inr free ↦ rw (insert_room free) ((insert_record_lem free).0.elsewhere j h)
  ]
