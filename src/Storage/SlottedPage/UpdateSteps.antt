-- ===== src/Storage/SlottedPage/UpdateSteps.antt =====
-- The writes of `SlottedPage::Update` and `SlottedPage::Delete` to the slot `i` of a valid page.
use mathlib.Core.Path.{fun_ext}
use cpp_relational_db.Base.{
  ℕ, ◌+◌, ◌-◌, ◌≤◌, ◌<◌, ◌≡◌, ◌≢◌, sym, ap, ap₂, subst, ◌∙◌, ◌⊎◌, inl, List, [], arith, length,
}
use cpp_relational_db.Storage.Bytes.{copy_in, read_bytes-congr}
use cpp_relational_db.Storage.SlottedPage.{
  SlottedPage, get_slot, num_slots, free_space_offset, slot_offset, slot_length, set_slot_offset,
  set_slot_length, put_data, take_space, overwrite, move_slot, relocate,
}
use cpp_relational_db.Storage.SlottedPage.Fields.{
  put_data_out, set_slot_offset_out, set_slot_length_out, slot_offset-set_slot_offset,
  slot_length-set_slot_length, slot_offset-set_slot_length, offset-put_data, offset-set_slot_offset,
  offset-set_slot_length, free_space_offset-put_data, num_slots-congr, free_space_offset-congr,
  slot_offset-congr, slot_length-congr, read_bytes-put_data,
}
use cpp_relational_db.Storage.SlottedPage.Contents.{
  slot_dir_end, record_at, IsValid, record_at-congr,
}
use cpp_relational_db.Storage.SlottedPage.InsertSteps.{
  offset-take_space, free_space_offset-take_space, room_out,
}

-- Where the record of a slot went: it kept its place, or it was given new space.
pub data Place (sp : SlottedPage) (i : ℕ) (len : ℕ) (t : SlottedPage) : Type 0 where
  kept :
      slot_offset t i ≡ slot_offset sp i
      → len ≤ slot_length sp i
      → free_space_offset t ≡ free_space_offset sp
      → Place sp i len t
  moved :
      slot_offset t i ≡ free_space_offset t
      → free_space_offset t + len ≡ free_space_offset sp
      → len + slot_dir_end sp ≤ free_space_offset sp
      → Place sp i len t

-- `t` is `sp` with the record `bs` in slot `i`.
pub record Replaces (sp : SlottedPage) (i : ℕ) (bs : List ℕ) (t : SlottedPage) : Type 0 where
  pub offset : t.offset ≡ sp.offset
  pub count : num_slots t ≡ num_slots sp
  pub place : Place sp i (length bs) t
  pub other_offset : (j : ℕ) → j < num_slots sp → j ≢ i → slot_offset t j ≡ slot_offset sp j
  pub other_length : (j : ℕ) → j < num_slots sp → j ≢ i → slot_length t j ≡ slot_length sp j
  pub other_record : (j : ℕ) → j < num_slots sp → j ≢ i → record_at t j ≡ record_at sp j
  pub new_length : slot_length t i ≡ length bs
  pub new_record : record_at t i ≡ bs
  pub before : (j : ℕ) → j < sp.offset → t.bytes j ≡ sp.bytes j

module _ (sp : SlottedPage) (v : IsValid sp) (i : ℕ) (h : i < num_slots sp) where
  -- Case 1 of `Update`, and `Delete` as the case of no bytes.
  module _ (bs : List ℕ) (shorter : length bs ≤ slot_length sp i) where
    abbrev stored : SlottedPage
    stored = put_data sp (slot_offset sp i) bs

    abbrev cut : SlottedPage
    cut = set_slot_length stored i (length bs)

    offset-stored : stored.offset ≡ sp.offset
    offset-stored = offset-put_data sp (slot_offset sp i) bs

    cut_out :
        (j : ℕ)
        → (j < get_slot sp i + 2)
          ⊎ ((get_slot sp i + 4 ≤ j) × (j < slot_offset sp i))
          ⊎ ((get_slot sp i + 4 ≤ j) × (slot_offset sp i + length bs ≤ j))
        → cut.bytes j ≡ sp.bytes j
    cut_out j p =
        set_slot_length_out stored i (length bs) j (omega (arith, offset-stored))
        ∙ put_data_out sp (slot_offset sp i) bs j (omega (arith, v.extent i h, v.dir))

    offset-cut : cut.offset ≡ sp.offset
    offset-cut = offset-set_slot_length stored i (length bs) ∙ offset-stored

    overwrite_eq : overwrite sp i bs ≡ cut
    unfolding overwrite
    overwrite_eq = ap (λ n. set_slot_length stored i n) (omega (arith, v.extent i h))

    cut-length : slot_length cut i ≡ length bs
    cut-length = slot_length-set_slot_length stored i (length bs) ∙ omega (arith, v.extent i h)

    cut_offset : slot_offset cut i ≡ slot_offset sp i
    cut_offset =
        slot_offset-set_slot_length stored i (length bs)
        ∙ slot_offset-congr sp stored offset-stored i
            (λ j a b. put_data_out sp (slot_offset sp i) bs j (omega (arith, v.extent i h, v.dir)))

    cut_record : record_at cut i ≡ bs
    unfolding record_at
    cut_record =
        rw (cut_offset, cut-length)
          (read_bytes-congr cut.bytes stored.bytes (slot_offset sp i) (length bs) (λ j a b.
              set_slot_length_out stored i (length bs) j
                (omega (arith, offset-stored, v.extent i h, v.dir)))
            ∙ read_bytes-put_data sp (slot_offset sp i) bs)

    module _ (k : ℕ) (l : k < num_slots sp) (ne : k ≢ i) where
      cut_slot : (j : ℕ) → get_slot sp k ≤ j → j < get_slot sp k + 4 → cut.bytes j ≡ sp.bytes j
      cut_slot j a b = cut_out j (omega (arith, v.extent i h, v.dir))

      cut_other_offset : slot_offset cut k ≡ slot_offset sp k
      cut_other_offset = slot_offset-congr sp cut offset-cut k cut_slot

      cut_other_length : slot_length cut k ≡ slot_length sp k
      cut_other_length = slot_length-congr sp cut offset-cut k cut_slot

      cut_other_record : record_at cut k ≡ record_at sp k
      cut_other_record = record_at-congr sp cut k cut_other_offset cut_other_length (λ j a b.
          cut_out j
            (omega (arith, v.extent k l, v.extent i h, v.dir, v.apart i k h l (λ e. ne (sym e)))))

    cut-Replaces : Replaces sp i bs cut
    cut-Replaces = record {
      offset = offset-cut;
      count = num_slots-congr sp cut offset-cut (λ j a b. cut_out j (inl (omega arith)));
      place =
          kept cut_offset shorter
            (free_space_offset-congr sp cut offset-cut (λ j a b. cut_out j (inl (omega arith))));
      other_offset = cut_other_offset;
      other_length = cut_other_length;
      other_record = cut_other_record;
      new_length = cut-length;
      new_record = cut_record;
      before = λ j l. cut_out j (inl (omega (arith, l)));
    }

    pub overwrite-Replaces : Replaces sp i bs (overwrite sp i bs)
    overwrite-Replaces = subst (Replaces sp i bs) (sym overwrite_eq) cut-Replaces

  pub delete-Replaces : Replaces sp i [] (set_slot_length sp i 0)
  unfolding put_data copy_in
  delete-Replaces =
      subst (Replaces sp i []) (ap (λ p. set_slot_length p i 0) nothing)
        (cut-Replaces [] (omega arith))
    where
      nothing : put_data sp (slot_offset sp i) [] ≡ sp
      nothing = λ t. record { bytes = same t; offset = sp.offset }
        where
          same : (put_data sp (slot_offset sp i) []).bytes ≡ sp.bytes
          same = fun_ext (λ j. put_data_out sp (slot_offset sp i) [] j (omega arith))

  -- Case 2 of `Update`.
  module _ (bs : List ℕ) (fits : length bs + slot_dir_end sp ≤ free_space_offset sp) where
    abbrev at : ℕ
    at = free_space_offset sp - length bs

    abbrev room : SlottedPage
    room = take_space sp (length bs)

    abbrev pointed : SlottedPage
    pointed = set_slot_offset room i at

    abbrev resized : SlottedPage
    resized = set_slot_length pointed i (length bs)

    abbrev placed : SlottedPage
    placed = put_data resized at bs

    offset-room : room.offset ≡ sp.offset
    offset-room = offset-take_space sp v (length bs) fits

    offset-pointed : pointed.offset ≡ sp.offset
    offset-pointed = offset-set_slot_offset room i at ∙ offset-room

    offset-resized : resized.offset ≡ sp.offset
    offset-resized = offset-set_slot_length pointed i (length bs) ∙ offset-pointed

    offset-placed : placed.offset ≡ sp.offset
    offset-placed = offset-put_data resized at bs ∙ offset-resized

    resized-room :
        (j : ℕ) → (j < get_slot sp i) ⊎ (get_slot sp i + 4 ≤ j) → resized.bytes j ≡ room.bytes j
    resized-room j p =
        set_slot_length_out pointed i (length bs) j (omega (arith, offset-pointed))
        ∙ set_slot_offset_out room i at j (omega (arith, offset-room))

    free_space_offset-resized : free_space_offset resized ≡ at
    free_space_offset-resized =
        free_space_offset-congr room resized (offset-resized ∙ sym offset-room)
          (λ j a b. resized-room j (omega (arith, offset-room)))
        ∙ free_space_offset-take_space sp v (length bs) fits

    move_slot_eq : move_slot sp i (length bs) ≡ resized
    unfolding move_slot
    move_slot_eq =
        ap₂ (λ a n. set_slot_length (set_slot_offset room i a) i n)
          (free_space_offset-take_space sp v (length bs) fits) (omega (arith, v.top))

    relocate_eq : relocate sp i bs ≡ placed
    unfolding relocate
    relocate_eq = rw (move_slot_eq, free_space_offset-resized)

    placed_out :
        (j : ℕ)
        → (j < sp.offset + 2)
          ⊎ ((sp.offset + 4 ≤ j) × (j < get_slot sp i))
          ⊎ ((get_slot sp i + 4 ≤ j) × (j < at))
          ⊎ (free_space_offset sp ≤ j)
        → placed.bytes j ≡ sp.bytes j
    placed_out j p =
        put_data_out resized at bs j (omega (arith, v.dir))
        ∙ resized-room j (omega (arith, v.dir))
        ∙ room_out sp v (length bs) fits j (omega (arith, v.dir))

    placed_offset : slot_offset placed i ≡ at
    placed_offset =
        slot_offset-congr resized placed (offset-put_data resized at bs) i
          (λ j a b. put_data_out resized at bs j (omega (arith, offset-resized, v.dir)))
        ∙ slot_offset-set_slot_length pointed i (length bs)
        ∙ slot_offset-set_slot_offset room i at
        ∙ omega (arith, v.top)

    placed-length : slot_length placed i ≡ length bs
    placed-length =
        slot_length-congr resized placed (offset-put_data resized at bs) i
          (λ j a b. put_data_out resized at bs j (omega (arith, offset-resized, v.dir)))
        ∙ slot_length-set_slot_length pointed i (length bs)
        ∙ omega (arith, v.top)

    placed_space : free_space_offset placed ≡ at
    placed_space =
        free_space_offset-put_data resized at (omega (arith, offset-resized, v.dir)) bs
        ∙ free_space_offset-resized

    module _ (k : ℕ) (l : k < num_slots sp) (ne : k ≢ i) where
      placed_slot :
          (j : ℕ) → get_slot sp k ≤ j → j < get_slot sp k + 4 → placed.bytes j ≡ sp.bytes j
      placed_slot j a b = placed_out j (omega (arith, v.dir))

      placed_other_offset : slot_offset placed k ≡ slot_offset sp k
      placed_other_offset = slot_offset-congr sp placed offset-placed k placed_slot

      placed_other_length : slot_length placed k ≡ slot_length sp k
      placed_other_length = slot_length-congr sp placed offset-placed k placed_slot

      placed_other_record : record_at placed k ≡ record_at sp k
      placed_other_record =
          record_at-congr sp placed k placed_other_offset placed_other_length
            (λ j a b. placed_out j (omega (arith, v.extent k l)))

    placed-Replaces : Replaces sp i bs placed
    unfolding record_at
    placed-Replaces = record {
      offset = offset-placed;
      count = num_slots-congr sp placed offset-placed (λ j a b. placed_out j (inl (omega arith)));
      place = moved (placed_offset ∙ sym placed_space) (omega (arith, placed_space)) fits;
      other_offset = placed_other_offset;
      other_length = placed_other_length;
      other_record = placed_other_record;
      new_length = placed-length;
      new_record = rw (placed_offset, placed-length) (read_bytes-put_data resized at bs);
      before = λ j l. placed_out j (inl (omega (arith, l)));
    }

    pub relocate-Replaces : Replaces sp i bs (relocate sp i bs)
    relocate-Replaces = subst (Replaces sp i bs) (sym relocate_eq) placed-Replaces
