-- ===== src/Storage/SlottedPage/Bounds.antt =====
-- Where the records that `SlottedPage::Get` points to lie.
use cpp_relational_db.Base.{
  ℕ, ◌+◌, ◌<◌, ◌≤◌, ◌≡◌, ◌==◌, inl, inr, ap, some, none, arith, leb, Bool-cases, leb→lt, ==→ne,
}
use cpp_relational_db.Storage.Bytes.{page_size}
use cpp_relational_db.Storage.SlottedPage.{
  SlottedPage, Span, num_slots, slot_offset, slot_length, get,
}
use cpp_relational_db.Storage.SlottedPage.Contents.{IsValid, slot_dir_end}

module _ (sp : SlottedPage) (v : IsValid sp) where
  -- On a valid page, the span that `Get` returns for a slot is of a slot in range, has a byte or
  -- more, begins behind the slot directory and ends within the page.
  pub get_bounds :
      (i : ℕ) (s : Span)
      → get sp i ≡ some s
      → (i < num_slots sp)
        × (0 < s.size)
        × (slot_dir_end sp ≤ s.start)
        × (s.start + s.size ≤ page_size)
  unfolding get
  get_bounds i s h = elim (Bool-cases (leb (num_slots sp) i)) [
    | inl over ↦ let no : none ≡ some s = rw over at h in cc
    | inr within ↦ elim (Bool-cases (slot_length sp i == 0)) [
      | inl empty ↦ let no : none ≡ some s = rw (within, empty) at h in cc
      | inr some_left ↦
          let l = leb→lt _ _ within in
          let there : some (record { start = slot_offset sp i; size = slot_length sp i }) ≡ some s =
            rw (within, some_left) at h in
          let same : record { start = slot_offset sp i; size = slot_length sp i } ≡ s = cc in
          omega (
            arith,
            l,
            v.dir,
            v.extent i l,
            ==→ne _ _ some_left,
            ap (λ x. x.start) same,
            ap (λ x. x.size) same,
          )
    ]
  ]
