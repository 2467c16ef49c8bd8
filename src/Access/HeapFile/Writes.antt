-- ===== src/Access/HeapFile/Writes.antt =====
-- What `HeapFile::Update` and `HeapFile::Delete` do to a page through the buffer pool.
use cpp_relational_db.Base.{
  sym, ◌∙◌, subst, refl, ap, Bool, ◌≢◌, ℕ, ◌<◌, ◌≡◌, inl, inr, List, false, arith, length, eq_or_ne,
}
use cpp_relational_db.Storage.Bytes.{Page, read_u32-congr}
use cpp_relational_db.Storage.Disk.{IDiskManager, KeepsPages, IsPageId}
use cpp_relational_db.Storage.SlottedPage
use cpp_relational_db.Storage.SlottedPage.{
  SlottedPage, Span, from_buffer, span_bytes, num_slots, slot_offset, slot_length, free_space,
  free_space_offset,
}
use cpp_relational_db.Storage.SlottedPage.Contents
use cpp_relational_db.Storage.SlottedPage.Contents.{
  contents, live_record, record_at, record_at-congr, get-contents, free_space-IsValid, slot_dir_end,
}
use cpp_relational_db.Storage.BufferManager.{
  BufferManager, Outcome, returned, frame, not_positive, request,
}
use cpp_relational_db.Storage.BufferManager.Invariant.{IsValid, Holds, Akin, Akin-trans}
use cpp_relational_db.Storage.BufferManager.Load.{Serves}
use cpp_relational_db.Storage.BufferManager.Request.{Requested, served, refused, request-Requested}
use cpp_relational_db.Storage.BufferManager.Clients.{request_shows}
use cpp_relational_db.Access.HeapFile.{
  Rid, size_of_heap_page_header, page_in, finish, update, delete, next_page_id,
}
use cpp_relational_db.Access.HeapFile.Reads.{HasPinRoom, one_more_pin}
use cpp_relational_db.Storage.SlottedPage.Update.{
  update_spec, delete_spec, update-update_spec, delete-delete_spec, update_before, delete_before,
}
use cpp_relational_db.Access.HeapFile.Pages.{
  contents-SameBytes, IsValid-SameBytes, offset-update, update_failed, offset-delete, delete_failed,
}
use cpp_relational_db.Access.HeapFile.Finish.{finish_lem}

module _ {D : Type 0} (dm : IDiskManager D) {Stores : D → ℕ → Page → Type 0}
    (k : KeepsPages dm Stores) (b : BufferManager D) (rid : Rid) (x : Page) (v : IsValid b)
    (q : IsPageId rid.page_id) (room : HasPinRoom b) (h : Holds Stores b rid.page_id x)
    (w : Contents.IsValid (from_buffer x size_of_heap_page_header)) where
  -- `b'` has in the page the records `rs` and the link that it had, in every other page what `b` had,
  -- and as many pins on every frame.
  pub record Written (rs : List (List ℕ)) (b' : BufferManager D) : Type 0 where
    pub valid : IsValid b'
    pub page : Page
    pub own : Holds Stores b' rid.page_id page
    pub page_valid : Contents.IsValid (from_buffer page size_of_heap_page_header)
    pub records : contents (from_buffer page size_of_heap_page_header) ≡ rs
    pub others : (p : ℕ) (z : Page) → p ≢ rid.page_id → Holds Stores b p z → Holds Stores b' p z
    pub pins : (g : ℕ) → (frame b' g).pin_count ≡ (frame b g).pin_count
    pub linked : next_page_id page ≡ next_page_id x
    pub akin : Akin k b b'

  -- An operation on the page in the frame that serves it.
  written_lem :
      (f : ℕ) (b₁ : BufferManager D) (sp : SlottedPage) (res : Bool)
      → request dm b rid.page_id ≡ returned f b₁
      → Serves dm k b rid.page_id f b₁
      → sp.offset ≡ size_of_heap_page_header
      → Contents.IsValid sp
      → (res ≡ false → sp.bytes ≡ (frame b₁ f).bytes)
      → ((j : ℕ) → j < size_of_heap_page_header → sp.bytes j ≡ (frame b₁ f).bytes j)
      → (b' : BufferManager D) × (finish dm b₁ rid.page_id f (sp, res) ≡ returned res b')
        × Written (contents sp) b'
  unfolding from_buffer next_page_id
  written_lem f b₁ sp res e s o valid failed before =
      let positive : not_positive (frame b₁ f).pin_count ≡ false =
        rw s.pinned (one_more_pin (frame b f).pin_count (room f)) in
      let bytes = request_shows dm k b b₁ rid.page_id f x v q e h in
      let (b', e', v', own, kept, less, others, akin) =
        finish_lem dm k b₁ rid.page_id f s.valid s.there sp res x failed (s.kept rid.page_id x h)
          bytes positive in
      let same : sp ≡ record { bytes = sp.bytes; offset = size_of_heap_page_header } =
        ap (λ i. record { bytes = sp.bytes; offset = i }) o in
      (
        b',
        e',
        record {
          valid = v';
          page = sp.bytes;
          own = own;
          page_valid = subst Contents.IsValid same valid;
          records = ap contents (sym same);
          others = λ p z ne held. kept p z ne (s.kept p z held);
          pins = λ g. elim (eq_or_ne f g) [
            | inl here ↦
                subst (λ i. (frame b' i).pin_count ≡ (frame b i).pin_count) here
                  (omega (arith, less, s.pinned, room f))
            | inr apart ↦ others g apart ∙ s.others g apart
          ];
          linked =
              read_u32-congr sp.bytes x 0
                (λ i a l. before i (omega (arith, l)) ∙ bytes i (omega (arith, l)));
          akin = Akin-trans k s.akin akin;
        },
      )

  abbrev old : SlottedPage
  old = from_buffer x size_of_heap_page_header

  served_page :
      (f : ℕ) (b₁ : BufferManager D)
      → request dm b rid.page_id ≡ returned f b₁
      → Contents.IsValid (page_in b₁ f)
        × (free_space (page_in b₁ f) ≡ free_space old)
        × (contents (page_in b₁ f) ≡ contents old)
  unfolding from_buffer
  served_page f b₁ e =
      let bytes = request_shows dm k b b₁ rid.page_id f x v q e h in
      let (valid, space) = IsValid-SameBytes old (page_in b₁ f) w refl (λ i o l. bytes i l) in
      (valid, space, contents-SameBytes old (page_in b₁ f) w refl (λ i o l. bytes i l))

  -- An operation on a page, with the specification of its effect on the array of records.
  served_lem :
      (f : ℕ) (b₁ : BufferManager D) (r : SlottedPage × Bool) (spec : List (List ℕ) × Bool)
      → request dm b rid.page_id ≡ returned f b₁
      → Serves dm k b rid.page_id f b₁
      → r.0.offset ≡ size_of_heap_page_header
      → Contents.IsValid r.0
      → (r.1 ≡ false → r.0.bytes ≡ (frame b₁ f).bytes)
      → ((j : ℕ) → j < size_of_heap_page_header → r.0.bytes j ≡ (frame b₁ f).bytes j)
      → (contents r.0, r.1) ≡ spec
      → (b' : BufferManager D) × (finish dm b₁ rid.page_id f r ≡ returned spec.1 b')
        × Written spec.0 b'
  served_lem f b₁ r spec e s o valid failed before eq =
      let (b', e', done) = written_lem f b₁ r.0 r.1 e s o valid failed before in
      (
        b',
        e' ∙ ap (λ z. returned z b') (ap (λ z. z.1) eq),
        subst (λ rs. Written rs b') (ap (λ z. z.0) eq) done,
      )

  module _ (g : ℕ) (l : g < length b.pool) (z : (frame b g).pin_count ≡ 0) where
    -- On a valid pool over a disk that keeps pages, with an unpinned frame and room for a pin on
    -- every frame, `Update` of a record of a page that holds a valid slotted page returns what
    -- `update_spec` returns, and leaves in the page, which stays valid, the records that it leaves;
    -- every other page keeps its contents, the page its link, every frame its number of pins, and
    -- the pool stays valid.
    pub update-Written :
        (bs : List ℕ)
        → (b' : BufferManager D) × (update dm b bs rid
            ≡ returned (update_spec (free_space old) (contents old) rid.slot_id bs).1 b')
          × Written (update_spec (free_space old) (contents old) rid.slot_id bs).0 b'
    unfolding update from_buffer
    update-Written bs = go _ refl (request-Requested dm k b rid.page_id v q)
      where
        go :
            (o : Outcome (BufferManager D) ℕ)
            → request dm b rid.page_id ≡ o
            → Requested dm k b rid.page_id o
            → (b' : BufferManager D) × (update dm b bs rid
                ≡ returned (update_spec (free_space old) (contents old) rid.slot_id bs).1 b')
              × Written (update_spec (free_space old) (contents old) rid.slot_id bs).0 b'
        go o e (served {f} {b' = b₁} s) =
            let (valid, space, same) = served_page f b₁ e in
            let (eq, valid') = update-update_spec (page_in b₁ f) valid rid.slot_id bs in
            let (b', e', done) =
              served_lem f b₁ (SlottedPage.update (page_in b₁ f) rid.slot_id bs)
                (update_spec (free_space old) (contents old) rid.slot_id bs) e s
                (offset-update (page_in b₁ f) rid.slot_id bs) valid'
                (update_failed (page_in b₁ f) rid.slot_id bs)
                (update_before (page_in b₁ f) valid rid.slot_id bs) (rw (space, same) at eq) in
            (b', rw (e) e', done)
        go o e (refused m empty all c) = absurd (all g l z)

    -- On a valid pool over a disk that keeps pages, with an unpinned frame and room for a pin on
    -- every frame, `Delete` of a record of a page that holds a valid slotted page returns what
    -- `delete_spec` returns, and leaves in the page, which stays valid, the records that it leaves;
    -- every other page keeps its contents, the page its link, every frame its number of pins, and
    -- the pool stays valid.
    pub delete-Written :
        (b' : BufferManager D) × (delete dm b rid
          ≡ returned (delete_spec (contents old) rid.slot_id).1 b')
        × Written (delete_spec (contents old) rid.slot_id).0 b'
    unfolding delete from_buffer
    delete-Written = go _ refl (request-Requested dm k b rid.page_id v q)
      where
        go :
            (o : Outcome (BufferManager D) ℕ)
            → request dm b rid.page_id ≡ o
            → Requested dm k b rid.page_id o
            → (b' : BufferManager D) × (delete dm b rid
                ≡ returned (delete_spec (contents old) rid.slot_id).1 b')
              × Written (delete_spec (contents old) rid.slot_id).0 b'
        go o e (served {f} {b' = b₁} s) =
            let (valid, space, same) = served_page f b₁ e in
            let (eq, valid') = delete-delete_spec (page_in b₁ f) valid rid.slot_id in
            let (b', e', done) =
              served_lem f b₁ (SlottedPage.delete (page_in b₁ f) rid.slot_id)
                (delete_spec (contents old) rid.slot_id) e s
                (offset-delete (page_in b₁ f) rid.slot_id) valid'
                (delete_failed (page_in b₁ f) rid.slot_id)
                (delete_before (page_in b₁ f) valid rid.slot_id) (rw (same) at eq) in
            (b', rw (e) e', done)
        go o e (refused m empty all c) = absurd (all g l z)
