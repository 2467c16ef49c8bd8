-- ===== src/Storage/SlottedPage/Contents.antt =====
-- The abstract view of a slotted page, an array of records in which a record of no bytes is a
-- deleted one, and the layout invariant under which the view is stable.
use mathlib.Core.Option
use cpp_relational_db.Base.{
  ℕ, ◌+◌, ◌-◌, ◌*◌, ◌≤◌, ◌<◌, ◌≡◌, ◌≢◌, refl, sym, ap, ◌∙◌, ◌⊎◌, inl, inr, Option, none, some, List,
  [], ◌∷◌, false, arith, leb, ◌==◌, Bool-cases, leb→le, leb→lt, ==→eq, ==→ne, length, get_elem?,
  get_elem?_above, tabulate, length-tabulate, get_elem?-tabulate,
}
use cpp_relational_db.Storage.Bytes.{page_size, read_bytes, read_bytes-congr}
use cpp_relational_db.Storage.SlottedPage.{
  SlottedPage, size_of_slot, size_of_page_header, num_slots, free_space_offset, slot_offset,
  slot_length, free_space, get, span_bytes,
}

abbrev pub slot_dir_end : SlottedPage → ℕ
slot_dir_end sp = sp.offset + size_of_page_header + num_slots sp * size_of_slot

unfoldable pub record_at : SlottedPage → ℕ → List ℕ
record_at sp i = read_bytes sp.bytes (slot_offset sp i) (slot_length sp i)

unfoldable pub contents : SlottedPage → List (List ℕ)
contents sp = tabulate (record_at sp) (num_slots sp)

-- The slot directory ends where the free space begins, every record lies behind the free space and
-- within the page, and no two records overlap.
pub record IsValid (sp : SlottedPage) : Type 0 where
  pub dir : slot_dir_end sp ≤ free_space_offset sp
  pub top : free_space_offset sp ≤ page_size
  pub extent :
      (i : ℕ)
      → i < num_slots sp
      → (free_space_offset sp ≤ slot_offset sp i)
        × (slot_offset sp i + slot_length sp i ≤ page_size)
  pub apart :
      (i j : ℕ)
      → i < num_slots sp
      → j < num_slots sp
      → i ≢ j
      → (slot_offset sp i + slot_length sp i ≤ slot_offset sp j)
        ⊎ (slot_offset sp j + slot_length sp j ≤ slot_offset sp i)

-- A page's `FreeSpace()` is the gap between the directory and the records: nothing wraps.
pub free_space-IsValid :
    (sp : SlottedPage) → IsValid sp → free_space sp ≡ free_space_offset sp - slot_dir_end sp
unfolding free_space
free_space-IsValid sp v = omega (arith, v.dir, v.top)

pub length-contents : (sp : SlottedPage) → length (contents sp) ≡ num_slots sp
unfolding contents
length-contents sp = length-tabulate (record_at sp) (num_slots sp)

pub record_at-congr :
    (s t : SlottedPage) (i : ℕ)
    → slot_offset t i ≡ slot_offset s i
    → slot_length t i ≡ slot_length s i
    → ((j : ℕ)
        → slot_offset s i ≤ j
        → j < slot_offset s i + slot_length s i
        → t.bytes j ≡ s.bytes j)
    → record_at t i ≡ record_at s i
unfolding record_at
record_at-congr s t i o l h = rw (o, l) (read_bytes-congr t.bytes s.bytes _ _ h)

-- What a reader of the array sees in a slot: nothing where it is empty.
abbrev pub nonempty : List ℕ → Option (List ℕ)
nonempty [] = none
nonempty (b ∷ bs) = some (b ∷ bs)

abbrev pub live_record : List (List ℕ) → ℕ → Option (List ℕ)
live_record rs i = Option.bind (get_elem? rs i) nonempty

pub nonempty_pos : (bs : List ℕ) → length bs ≢ 0 → nonempty bs ≡ some bs
nonempty_pos [] h = absurd (h refl)
nonempty_pos (b ∷ bs) h = refl

nonempty_zero : (bs : List ℕ) → length bs ≡ 0 → nonempty bs ≡ none
nonempty_zero [] h = refl
nonempty_zero (b ∷ bs) h = absurd (omega (arith, h))

pub length-record_at : (sp : SlottedPage) (i : ℕ) → length (record_at sp i) ≡ slot_length sp i
unfolding record_at read_bytes
length-record_at sp i = length-tabulate _ (slot_length sp i)

live_record_above :
    (sp : SlottedPage) (i : ℕ) → num_slots sp ≤ i → live_record (contents sp) i ≡ none
unfolding Option.bind
live_record_above sp i h =
    ap (λ o. Option.bind o nonempty)
      (get_elem?_above (contents sp) i (omega (arith, length-contents sp)))

live_record-contents :
    (sp : SlottedPage) (i : ℕ)
    → i < num_slots sp
    → live_record (contents sp) i ≡ nonempty (record_at sp i)
unfolding contents Option.bind
live_record-contents sp i h =
    ap (λ o. Option.bind o nonempty) (get_elem?-tabulate (record_at sp) (num_slots sp) i h)

get_within :
    (sp : SlottedPage) (i : ℕ)
    → leb (num_slots sp) i ≡ false
    → Option.map (span_bytes sp) (get sp i) ≡ nonempty (record_at sp i)
unfolding get span_bytes record_at
get_within sp i h = rw h (elim (Bool-cases (slot_length sp i == 0)) [
  | inl empty ↦
      rw empty (sym (nonempty_zero _ (omega (arith, length-record_at sp i, ==→eq _ _ empty))))
  | inr some_left ↦
      rw some_left
        (sym (nonempty_pos _ (omega (arith, length-record_at sp i, ==→ne _ _ some_left))))
])

-- `Get` returns nothing for a slot that is out of range or has no bytes, and otherwise a span
-- that shows the bytes of the record.
pub get-contents :
    (sp : SlottedPage) (i : ℕ) → Option.map (span_bytes sp) (get sp i) ≡ live_record (contents sp) i
unfolding get
get-contents sp i = elim (Bool-cases (leb (num_slots sp) i)) [
  | inl over ↦ rw over (sym (live_record_above sp i (leb→le _ _ over)))
  | inr within ↦ get_within sp i within ∙ sym (live_record-contents sp i (leb→lt _ _ within))
]
