-- ===== src/Storage/SlottedPage/Fields.antt =====
-- What each write to a slotted page leaves alone, and what it can be read back as.
use cpp_relational_db.Base.{ℕ, ◌+◌, ◌%◌, ◌^◌, ◌≤◌, ◌<◌, ◌≡◌, refl, ◌⊎◌, List, arith, length, ◌++◌}
use cpp_relational_db.Storage.Bytes.{
  copy_in, read_bytes, read_bytes-copy_in_self, read_u16, u16_bytes, copy_in_out, read_u16-congr,
  read_u16-write_u16_self, read_u16-write_u16_out, write_u16_out,
}
use cpp_relational_db.Storage.SlottedPage.{
  SlottedPage, get_slot, num_slots, free_space_offset, slot_offset, slot_length, set_num_slots,
  set_free_space_offset, set_slot_offset, set_slot_length, put_data, put_slot,
}

-- A byte outside the written range.
pub set_num_slots_out :
    (sp : SlottedPage) (v j : ℕ)
    → (j < sp.offset) ⊎ (sp.offset + 2 ≤ j)
    → (set_num_slots sp v).bytes j ≡ sp.bytes j
unfolding set_num_slots
set_num_slots_out sp v j h = write_u16_out sp.bytes sp.offset v j h

pub set_free_space_offset_out :
    (sp : SlottedPage) (v j : ℕ)
    → (j < sp.offset + 2) ⊎ (sp.offset + 4 ≤ j)
    → (set_free_space_offset sp v).bytes j ≡ sp.bytes j
unfolding set_free_space_offset
set_free_space_offset_out sp v j h = write_u16_out sp.bytes (sp.offset + 2) v j (omega arith)

pub set_slot_offset_out :
    (sp : SlottedPage) (i v j : ℕ)
    → (j < get_slot sp i) ⊎ (get_slot sp i + 2 ≤ j)
    → (set_slot_offset sp i v).bytes j ≡ sp.bytes j
unfolding set_slot_offset
set_slot_offset_out sp i v j h = write_u16_out sp.bytes (get_slot sp i) v j h

pub set_slot_length_out :
    (sp : SlottedPage) (i v j : ℕ)
    → (j < get_slot sp i + 2) ⊎ (get_slot sp i + 4 ≤ j)
    → (set_slot_length sp i v).bytes j ≡ sp.bytes j
unfolding set_slot_length
set_slot_length_out sp i v j h = write_u16_out sp.bytes (get_slot sp i + 2) v j (omega arith)

pub put_data_out :
    (sp : SlottedPage) (a : ℕ) (bs : List ℕ) (j : ℕ)
    → (j < a) ⊎ (a + length bs ≤ j)
    → (put_data sp a bs).bytes j ≡ sp.bytes j
unfolding put_data
put_data_out sp a bs j h = copy_in_out sp.bytes a bs j h

pub put_slot_out :
    (sp : SlottedPage) (a off len j : ℕ)
    → (j < a) ⊎ (a + 4 ≤ j)
    → (put_slot sp a off len).bytes j ≡ sp.bytes j
unfolding put_slot
put_slot_out sp a off len j h = put_data_out sp a (u16_bytes off ++ u16_bytes len) j h

pub offset-put_data :
    (sp : SlottedPage) (a : ℕ) (bs : List ℕ) → (put_data sp a bs).offset ≡ sp.offset
unfolding put_data
offset-put_data sp a bs = refl

pub offset-put_slot :
    (sp : SlottedPage) (a off len : ℕ) → (put_slot sp a off len).offset ≡ sp.offset
unfolding put_slot put_data
offset-put_slot sp a off len = refl

pub offset-set_num_slots : (sp : SlottedPage) (v : ℕ) → (set_num_slots sp v).offset ≡ sp.offset
unfolding set_num_slots
offset-set_num_slots sp v = refl

pub offset-set_slot_offset :
    (sp : SlottedPage) (i v : ℕ) → (set_slot_offset sp i v).offset ≡ sp.offset
unfolding set_slot_offset
offset-set_slot_offset sp i v = refl

pub offset-set_slot_length :
    (sp : SlottedPage) (i v : ℕ) → (set_slot_length sp i v).offset ≡ sp.offset
unfolding set_slot_length
offset-set_slot_length sp i v = refl

-- What was just written.
pub num_slots-set_num_slots :
    (sp : SlottedPage) (v : ℕ) → num_slots (set_num_slots sp v) ≡ v % 2 ^ 16
unfolding num_slots set_num_slots
num_slots-set_num_slots sp v = read_u16-write_u16_self sp.bytes sp.offset v

pub free_space_offset-set_free_space_offset :
    (sp : SlottedPage) (v : ℕ) → free_space_offset (set_free_space_offset sp v) ≡ v % 2 ^ 16
unfolding free_space_offset set_free_space_offset
free_space_offset-set_free_space_offset sp v = read_u16-write_u16_self sp.bytes (sp.offset + 2) v

pub slot_offset-set_slot_offset :
    (sp : SlottedPage) (i v : ℕ) → slot_offset (set_slot_offset sp i v) i ≡ v % 2 ^ 16
unfolding slot_offset set_slot_offset
slot_offset-set_slot_offset sp i v = read_u16-write_u16_self sp.bytes (get_slot sp i) v

pub slot_length-set_slot_length :
    (sp : SlottedPage) (i v : ℕ) → slot_length (set_slot_length sp i v) i ≡ v % 2 ^ 16
unfolding slot_length set_slot_length
slot_length-set_slot_length sp i v = read_u16-write_u16_self sp.bytes (get_slot sp i + 2) v

pub slot_offset-put_slot :
    (sp : SlottedPage) (i off len : ℕ)
    → slot_offset (put_slot sp (get_slot sp i) off len) i ≡ off % 2 ^ 16
unfolding slot_offset put_slot put_data copy_in read_u16
slot_offset-put_slot sp i off len = ground arith

pub slot_length-put_slot :
    (sp : SlottedPage) (i off len : ℕ)
    → slot_length (put_slot sp (get_slot sp i) off len) i ≡ len % 2 ^ 16
unfolding slot_length put_slot put_data copy_in read_u16
slot_length-put_slot sp i off len = ground arith

pub read_bytes-put_data :
    (sp : SlottedPage) (a : ℕ) (bs : List ℕ)
    → read_bytes (put_data sp a bs).bytes a (length bs) ≡ bs
unfolding put_data
read_bytes-put_data sp a bs = read_bytes-copy_in_self sp.bytes a bs

-- Two states of one page.
module _ (s t : SlottedPage) (o : t.offset ≡ s.offset) where
  pub num_slots-congr :
      ((j : ℕ) → s.offset ≤ j → j < s.offset + 2 → t.bytes j ≡ s.bytes j)
      → num_slots t ≡ num_slots s
  unfolding num_slots
  num_slots-congr h = rw o (
      read_u16-congr t.bytes s.bytes s.offset (h _ (omega arith) (omega arith))
        (h _ (omega arith) (omega arith)))

  pub free_space_offset-congr :
      ((j : ℕ) → s.offset + 2 ≤ j → j < s.offset + 4 → t.bytes j ≡ s.bytes j)
      → free_space_offset t ≡ free_space_offset s
  unfolding free_space_offset
  free_space_offset-congr h = rw o (
      read_u16-congr t.bytes s.bytes (s.offset + 2) (h _ (omega arith) (omega arith))
        (h _ (omega arith) (omega arith)))

  module _ (i : ℕ)
      (h : (j : ℕ) → get_slot s i ≤ j → j < get_slot s i + 4 → t.bytes j ≡ s.bytes j) where
    pub slot_offset-congr : slot_offset t i ≡ slot_offset s i
    unfolding slot_offset
    slot_offset-congr = rw o (
        read_u16-congr t.bytes s.bytes (get_slot s i) (h _ (omega arith) (omega arith))
          (h _ (omega arith) (omega arith)))

    pub slot_length-congr : slot_length t i ≡ slot_length s i
    unfolding slot_length
    slot_length-congr = rw o (
        read_u16-congr t.bytes s.bytes (get_slot s i + 2) (h _ (omega arith) (omega arith))
          (h _ (omega arith) (omega arith)))

-- The offset of a slot does not change with its length.
pub slot_offset-set_slot_length :
    (sp : SlottedPage) (i v : ℕ) → slot_offset (set_slot_length sp i v) i ≡ slot_offset sp i
unfolding slot_offset set_slot_length
slot_offset-set_slot_length sp i v =
    read_u16-write_u16_out sp.bytes (get_slot sp i + 2) (get_slot sp i) v (omega arith)

-- Data and slots are written behind the header.
module _ (sp : SlottedPage) (a : ℕ) (behind : sp.offset + 4 ≤ a) where
  pub num_slots-put_data : (bs : List ℕ) → num_slots (put_data sp a bs) ≡ num_slots sp
  num_slots-put_data bs =
      num_slots-congr sp (put_data sp a bs) (offset-put_data sp a bs)
        (λ j p q. put_data_out sp a bs j (omega (arith, behind)))

  pub free_space_offset-put_data :
      (bs : List ℕ) → free_space_offset (put_data sp a bs) ≡ free_space_offset sp
  free_space_offset-put_data bs =
      free_space_offset-congr sp (put_data sp a bs) (offset-put_data sp a bs)
        (λ j p q. put_data_out sp a bs j (omega (arith, behind)))

  pub num_slots-put_slot : (off len : ℕ) → num_slots (put_slot sp a off len) ≡ num_slots sp
  unfolding put_slot
  num_slots-put_slot off len = num_slots-put_data (u16_bytes off ++ u16_bytes len)

  pub free_space_offset-put_slot :
      (off len : ℕ) → free_space_offset (put_slot sp a off len) ≡ free_space_offset sp
  unfolding put_slot
  free_space_offset-put_slot off len = free_space_offset-put_data (u16_bytes off ++ u16_bytes len)
