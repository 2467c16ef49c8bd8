-- ===== src/Storage/SlottedPage/Update.antt =====
-- `SlottedPage::Update` and `SlottedPage::Delete` on the array of records.
use cpp_relational_db.Base.{
  get_or-tabulate, ℕ, ◌+◌, ◌≤◌, ◌<◌, ◌≡◌, ◌≢◌, refl, sym, ap, ◌∙◌, ◌⊎◌, inl, inr, List, [], Bool,
  true, false, arith, le→leb, ltb, leb, ◌||◌, Bool-cases, leb→le, leb→lt, ltb→lt, ltb→le, lt→leb,
  eq_or_ne, length, set, get_or, tabulate-set, if◌then◌else◌,
}
use cpp_relational_db.Storage.Bytes.{page_size}
use cpp_relational_db.Storage.SlottedPage.{
  SlottedPage, num_slots, free_space_offset, slot_offset, slot_length, free_space, update, delete,
}
use cpp_relational_db.Storage.SlottedPage.Contents.{
  length-record_at, slot_dir_end, record_at, contents, length-contents, IsValid, free_space-IsValid,
}
use cpp_relational_db.Storage.SlottedPage.UpdateSteps.{
  Place, kept, moved, Replaces, overwrite-Replaces, delete-Replaces, relocate-Replaces,
}

module _ (sp t : SlottedPage) (v : IsValid sp) (i : ℕ) (bs : List ℕ) (h : i < num_slots sp)
    (r : Replaces sp i bs t) where
  space :
      Place sp i (length bs) t
      → (free_space_offset t ≤ free_space_offset sp) × (slot_dir_end t ≤ free_space_offset t)
  space (kept o l f) = omega (arith, r.offset, r.count, v.dir)
  space (moved o f g) = omega (arith, r.offset, r.count, v.dir)

  new_extent :
      Place sp i (length bs) t
      → (free_space_offset t ≤ slot_offset t i) × (slot_offset t i + slot_length t i ≤ page_size)
  new_extent (kept o l f) = omega (arith, v.extent i h, r.new_length)
  new_extent (moved o f g) = omega (arith, v.top, r.new_length)

  extent :
      (j : ℕ)
      → j < num_slots t
      → (free_space_offset t ≤ slot_offset t j) × (slot_offset t j + slot_length t j ≤ page_size)
  extent j l = elim (eq_or_ne j i) [
    | inl same ↦ rw same (new_extent r.place)
    | inr other ↦
        let l' : j < num_slots sp = omega (arith, r.count) in
        omega (
          arith,
          v.extent j l',
          r.other_offset j l' other,
          r.other_length j l' other,
          space r.place,
        )
  ]

  new_apart :
      Place sp i (length bs) t
      → (j : ℕ) → j < num_slots sp
      → j ≢ i
      → (slot_offset t i + slot_length t i ≤ slot_offset t j)
        ⊎ (slot_offset t j + slot_length t j ≤ slot_offset t i)
  new_apart (kept o m f) j l other = omega (
    arith,
    r.new_length,
    r.other_offset j l other,
    r.other_length j l other,
    v.apart i j h l (λ e. other (sym e)),
  )
  new_apart (moved o f g) j l other =
      inl (omega (arith, r.new_length, r.other_offset j l other, v.extent j l))

  apart :
      (j k : ℕ)
      → j < num_slots t
      → k < num_slots t
      → j ≢ k
      → (slot_offset t j + slot_length t j ≤ slot_offset t k)
        ⊎ (slot_offset t k + slot_length t k ≤ slot_offset t j)
  apart j k a b ne = elim (eq_or_ne j i) [
    | inl same ↦ rw same (new_apart r.place k (omega (arith, r.count)) (λ e. ne (same ∙ sym e)))
    | inr other ↦ elim (eq_or_ne k i) [
      | inl same ↦ rw same (swap (new_apart r.place j (omega (arith, r.count)) other))
      | inr other' ↦
          let l : j < num_slots sp = omega (arith, r.count) in
          let l' : k < num_slots sp = omega (arith, r.count) in
          rw
            (
              r.other_offset j l other,
              r.other_length j l other,
              r.other_offset k l' other',
              r.other_length k l' other',
            )
            (v.apart j k l l' ne)
    ]
  ]
    where
      swap : {A B : Type 0} → A ⊎ B → B ⊎ A
      swap (inl x) = inr x
      swap (inr y) = inl y

  pub Replaces-IsValid : IsValid t
  Replaces-IsValid = record {
    dir = (space r.place).1;
    top = omega (arith, space r.place, v.top);
    extent = extent;
    apart = apart;
  }

  pub contents-Replaces : contents t ≡ set (contents sp) i bs
  unfolding contents
  contents-Replaces = rw r.count (
      tabulate-set (record_at sp) (record_at t) (num_slots sp) i bs (λ _. r.new_record)
        r.other_record)

-- The array's update, where `room` bytes are free: in its place a record may only shrink.
unfoldable pub update_spec : ℕ → List (List ℕ) → ℕ → List ℕ → List (List ℕ) × Bool
update_spec room rs i bs =
    if leb (length rs) i
    then (rs, false)
    else if leb (length bs) (length (get_or rs i [])) || leb (length bs) room
    then (set rs i bs, true)
    else (rs, false)

unfoldable pub delete_spec : List (List ℕ) → ℕ → List (List ℕ) × Bool
delete_spec rs i = if leb (length rs) i then (rs, false) else (set rs i [], true)

module _ (sp : SlottedPage) (v : IsValid sp) (i : ℕ) where
  old_length : i < num_slots sp → length (get_or (contents sp) i []) ≡ slot_length sp i
  unfolding contents
  old_length h = rw (get_or-tabulate (record_at sp) (num_slots sp) i [] h) (length-record_at sp i)

  replaced_lem :
      (bs : List ℕ) (t : SlottedPage)
      → i < num_slots sp
      → Replaces sp i bs t
      → (◌≡◌ {A = List (List ℕ) × Bool} (contents t, true) (set (contents sp) i bs, true))
        × IsValid t
  replaced_lem bs t h r =
      (ap (λ rs. (rs, true)) (contents-Replaces sp t v i bs h r), Replaces-IsValid sp t v i bs h r)

  -- On a valid page, `Update` does to the array of records what `update_spec` says, with
  -- `FreeSpace()` for the room, and the page stays valid.
  pub update-update_spec :
      (bs : List ℕ)
      → ((contents (update sp i bs).0, (update sp i bs).1)
          ≡ update_spec (free_space sp) (contents sp) i bs)
        × IsValid (update sp i bs).0
  unfolding update update_spec
  update-update_spec bs = rw (length-contents sp) (elim (Bool-cases (leb (num_slots sp) i)) [
    | inl over ↦ rw over (refl, v)
    | inr within ↦
        let h : i < num_slots sp = leb→lt _ _ within in
        rw (within, old_length h)
          (elim (Bool-cases (leb (length bs) (slot_length sp i))) [
            | inl short ↦
                rw short (replaced_lem bs _ h (overwrite-Replaces sp v i h bs (leb→le _ _ short)))
            | inr long ↦ rw long (elim (Bool-cases (ltb (free_space sp) (length bs))) [
              | inl full ↦ rw (full, lt→leb _ _ (ltb→lt _ _ full)) (refl, v)
              | inr free ↦
                  rw (free, le→leb _ _ (ltb→le _ _ free))
                    (replaced_lem bs _ h (
                      relocate-Replaces sp v i h bs
                        (omega (arith, free_space-IsValid sp v, v.dir, ltb→le _ _ free))))
            ])
          ])
  ])

  -- On a valid page, `Delete` does to the array of records what `delete_spec` says, empties a
  -- slot in range and refuses others, and the page stays valid.
  pub delete-delete_spec :
      ((contents (delete sp i).0, (delete sp i).1) ≡ delete_spec (contents sp) i)
      × IsValid (delete sp i).0
  unfolding delete delete_spec
  delete-delete_spec = rw (length-contents sp) (elim (Bool-cases (leb (num_slots sp) i)) [
    | inl over ↦ rw over (refl, v)
    | inr within ↦
        let h : i < num_slots sp = leb→lt _ _ within in
        rw within (replaced_lem [] _ h (delete-Replaces sp v i h))
  ])

  -- Neither writes in front of the slotted page.
  pub update_before :
      (bs : List ℕ) (j : ℕ) → j < sp.offset → (update sp i bs).0.bytes j ≡ sp.bytes j
  unfolding update
  update_before bs j l = elim (Bool-cases (leb (num_slots sp) i)) [
    | inl over ↦ rw over refl
    | inr within ↦
        let h : i < num_slots sp = leb→lt _ _ within in
        rw within (elim (Bool-cases (leb (length bs) (slot_length sp i))) [
          | inl short ↦ rw short ((overwrite-Replaces sp v i h bs (leb→le _ _ short)).before j l)
          | inr long ↦ rw long (elim (Bool-cases (ltb (free_space sp) (length bs))) [
            | inl full ↦ rw full refl
            | inr free ↦ rw free (
                (relocate-Replaces sp v i h bs
                    (omega (arith, free_space-IsValid sp v, v.dir, ltb→le _ _ free))).before
                  j l)
          ])
        ])
  ]

  pub delete_before : (j : ℕ) → j < sp.offset → (delete sp i).0.bytes j ≡ sp.bytes j
  unfolding delete
  delete_before j l = elim (Bool-cases (leb (num_slots sp) i)) [
    | inl over ↦ rw over refl
    | inr within ↦ rw within ((delete-Replaces sp v i (leb→lt _ _ within)).before j l)
  ]
