-- ===== src/Access/HeapFile/Shape.antt =====
-- What the operations of a heap file make of a page of the chain.
use cpp_relational_db.Base.{
  ℕ, ◌+◌, ◌-◌, ◌^◌, ◌<◌, ◌≡◌, inl, inr, refl, sym, ap, ◌∙◌, subst, some, none, Option, List, [],
  ◌∷◌, ◌++◌, true, false, arith, length, ltb,
}
use cpp_relational_db.Storage.Bytes.{
  Page, SameBytes, read_u32-congr, read_u32-write_u32_self, write_u32_out,
}
use cpp_relational_db.Storage.Disk.{invalid_page_id}
use cpp_relational_db.Storage.SlottedPage
use cpp_relational_db.Storage.SlottedPage.{SlottedPage, from_buffer, free_space, size_of_slot, init}
use cpp_relational_db.Storage.SlottedPage.Contents
use cpp_relational_db.Storage.SlottedPage.Contents.{contents, free_space-IsValid}
use cpp_relational_db.Storage.SlottedPage.Insert.{
  insert-insert_spec, insert_full, insert_spec_room, init_before, insert_space, insert_elsewhere,
  init-IsValid, free_space-init,
}
use cpp_relational_db.Access.HeapFile.{
  next_page_id, set_next_page_id, init_heap_page, size_of_heap_page_header,
}
use cpp_relational_db.Access.HeapFile.Pages.{
  SameFrom, contents-SameBytes, IsValid-SameBytes, offset-insert,
}
use cpp_relational_db.Access.HeapFile.Chain.{Entry, IsPageOf}

abbrev pub at_header : Page → SlottedPage
at_header x = from_buffer x size_of_heap_page_header

-- A page with the same bytes behind the header.
IsPageOf-SameFrom :
    (e : Entry) (n n' : ℕ) (x y : Page)
    → IsPageOf e n x
    → SameFrom size_of_heap_page_header y x
    → next_page_id y ≡ n'
    → IsPageOf e n' y
unfolding from_buffer
IsPageOf-SameFrom e n n' x y s same link =
    let (valid, room) = IsValid-SameBytes (at_header x) (at_header y) s.valid refl same in
    record {
      valid = valid;
      records = contents-SameBytes (at_header x) (at_header y) s.valid refl same ∙ s.records;
      room = room ∙ s.room;
      linked = link;
    }

pub IsPageOf-SameBytes :
    (e : Entry) (n : ℕ) (x y : Page) → IsPageOf e n x → SameBytes y x → IsPageOf e n y
unfolding next_page_id
IsPageOf-SameBytes e n x y s same =
    IsPageOf-SameFrom e n n x y s (λ i o l. same i l)
      (read_u32-congr y x 0 (λ i a l. same i (omega arith)) ∙ s.linked)

pub IsPageOf-set_next_page_id :
    (e : Entry) (n v : ℕ) (x : Page)
    → IsPageOf e n x
    → v < 2 ^ 32
    → IsPageOf e v (set_next_page_id v x)
unfolding next_page_id set_next_page_id
IsPageOf-set_next_page_id e n v x s l =
    IsPageOf-SameFrom e n v x (set_next_page_id v x) s
      (λ i o h. write_u32_out x 0 v i (inr (omega arith)))
      (read_u32-write_u32_self x 0 v ∙ (omega arith))

-- An empty page.
abbrev pub blank : ℕ → Entry
blank id = record { id = id; room = 8180; records = [] }

pub IsPageOf-init_heap_page :
    (id : ℕ) (m : Page) → IsPageOf (blank id) invalid_page_id (init_heap_page m)
unfolding init_heap_page next_page_id set_next_page_id
IsPageOf-init_heap_page id m =
    let x = set_next_page_id invalid_page_id m in
    let (valid, none_yet) = init-IsValid x size_of_heap_page_header (omega arith) in
    record {
      valid = valid;
      records = none_yet;
      room = free_space-init x size_of_heap_page_header (omega arith);
      linked =
          read_u32-congr (init x 8) x 0 (λ i a l. init_before x 8 i (omega arith))
          ∙ read_u32-write_u32_self m 0 invalid_page_id;
    }

-- The page with one more record.
abbrev pub appended : Entry → List ℕ → Entry
appended e bs = record e {
  room = e.room - (length bs + size_of_slot);
  records = e.records ++ bs ∷ [];
}

module _ (e : Entry) (n : ℕ) (x : Page) (s : IsPageOf e n x) (bs : List ℕ)
    (small : length bs + size_of_slot < 2 ^ 64) where
  pub insert_no_room :
      ltb e.room (length bs + size_of_slot) ≡ true
      → SlottedPage.insert (at_header x) bs ≡ (at_header x, none)
  insert_no_room h = insert_full (at_header x) bs s.valid small (rw s.room h)

  module _ (h : ltb e.room (length bs + size_of_slot) ≡ false) where
    abbrev after : SlottedPage
    after = (SlottedPage.insert (at_header x) bs).0

    fits : ltb (free_space (at_header x)) (length bs + size_of_slot) ≡ false
    fits = rw s.room h

    effect :
        ◌≡◌ {A = List (List ℕ) × Option ℕ}
          (contents after, (SlottedPage.insert (at_header x) bs).1)
          (e.records ++ bs ∷ [], some (length e.records))
    effect =
        (insert-insert_spec (at_header x) bs s.valid small).0
        ∙ insert_spec_room (free_space (at_header x)) (contents (at_header x)) bs fits
        ∙ ap (λ rs. (rs ++ bs ∷ [], some (length rs))) s.records

    as_header : after ≡ at_header after.bytes
    unfolding from_buffer
    as_header =
        ap (λ o. record { bytes = after.bytes; offset = o }) (offset-insert (at_header x) bs)

    pub insert_fits :
        ((SlottedPage.insert (at_header x) bs).1 ≡ some (length e.records))
        × IsPageOf (appended e bs) n after.bytes
    unfolding from_buffer next_page_id
    insert_fits = (
      ap (λ r. r.1) effect,
      record {
        valid =
            subst Contents.IsValid as_header (insert-insert_spec (at_header x) bs s.valid small).1;
        records = ap contents (sym as_header) ∙ ap (λ r. r.0) effect;
        room =
            ap free_space (sym as_header)
            ∙ insert_space (at_header x) bs s.valid small fits
            ∙ ap (λ r. r - (length bs + size_of_slot)) s.room;
        linked =
            read_u32-congr after.bytes x 0
              (λ i a l. insert_elsewhere (at_header x) bs s.valid small i (inl (omega arith)))
            ∙ s.linked;
      },
    )
