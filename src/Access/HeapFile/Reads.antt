-- ===== src/Access/HeapFile/Reads.antt =====
-- What `HeapFile::Get` reads through the buffer pool.
use mathlib.Core.Option
use cpp_relational_db.Base.{
  ℕ, ◌+◌, ◌-◌, ◌%◌, ◌^◌, ◌<◌, ◌≡◌, inl, inr, refl, ap, ◌∙◌, subst, none, some, Option, false, arith,
  length, eq_or_ne,
}
use cpp_relational_db.Storage.Bytes.{Page, SameBytes}
use cpp_relational_db.Storage.Disk.{IDiskManager, KeepsPages, IsPageId}
use cpp_relational_db.Storage.SlottedPage
use cpp_relational_db.Storage.SlottedPage.{
  SlottedPage, Span, from_buffer, span_bytes, num_slots, slot_offset, slot_length,
}
use cpp_relational_db.Storage.SlottedPage.Contents
use cpp_relational_db.Storage.SlottedPage.Contents.{
  contents, live_record, record_at, record_at-congr, get-contents,
}
use cpp_relational_db.Storage.BufferManager.{
  BufferManager, Outcome, returned, frame, not_positive, request,
}
use cpp_relational_db.Storage.BufferManager.Invariant.{
  IsValid, Holds, Preserves, Akin, Akin-trans, SameCache-Akin, SameCache-IsValid,
  SameCache-Preserves,
}
use cpp_relational_db.Storage.BufferManager.Load.{Serves}
use cpp_relational_db.Storage.BufferManager.Request.{Requested, served, refused, request-Requested}
use cpp_relational_db.Storage.BufferManager.Clients.{request_shows, release_pinned}
use cpp_relational_db.Access.HeapFile.Pages.{contents-SameBytes}
use cpp_relational_db.Access.HeapFile.{Rid, Record, shown, size_of_heap_page_header, page_in, get}

-- Every frame can take one more pin.
abbrev pub HasPinRoom : {D : Type 0} → BufferManager D → Type 0
HasPinRoom b = (g : ℕ) → (frame b g).pin_count < 2 ^ 31 - 1

pub one_more_pin : (n : ℕ) → n < 2 ^ 31 - 1 → not_positive ((n + 1) % 2 ^ 32) ≡ false
one_more_pin n h = ground arith

module _ {D : Type 0} (dm : IDiskManager D) {Stores : D → ℕ → Page → Type 0}
    (k : KeepsPages dm Stores) (b : BufferManager D) (rid : Rid) (x : Page) (v : IsValid b)
    (q : IsPageId rid.page_id) (room : HasPinRoom b) (h : Holds Stores b rid.page_id x)
    (w : Contents.IsValid (from_buffer x size_of_heap_page_header)) where
  -- `b'` has what `b` had, with as many pins on every frame, over a disk with the same page ids, and the record `r` is what the slot
  -- of the page holds.
  pub record Read (r : Option Record) (b' : BufferManager D) : Type 0 where
    pub valid : IsValid b'
    pub kept : Preserves Stores b b'
    pub pins : (g : ℕ) → (frame b' g).pin_count ≡ (frame b g).pin_count
    pub akin : Akin k b b'
    pub found :
        Option.map (shown b') r
        ≡ live_record (contents (from_buffer x size_of_heap_page_header)) rid.slot_id

  abbrev as_record : ℕ → Span → Record
  as_record f s = record { rid = rid; frame = f; span = s }

  -- The record that is read from the frame which serves the page, in any state with its data.
  found_lem :
      (f : ℕ) (b₁ b₂ : BufferManager D)
      → SameBytes (frame b₁ f).bytes x
      → (frame b₂ f).bytes ≡ (frame b₁ f).bytes
      → Option.map
          (shown b₂)
          (Option.map (as_record f) (SlottedPage.get (page_in b₁ f) rid.slot_id))
        ≡ live_record (contents (from_buffer x size_of_heap_page_header)) rid.slot_id
  unfolding from_buffer
  found_lem f b₁ b₂ same e =
      shows (SlottedPage.get (page_in b₁ f) rid.slot_id)
      ∙ get-contents (page_in b₁ f) rid.slot_id
      ∙ ap (λ c. live_record c rid.slot_id)
          (contents-SameBytes (from_buffer x size_of_heap_page_header) (page_in b₁ f) w refl
            (λ i o l. same i l))
    where
      shows :
          (o : Option Span)
          → Option.map (shown b₂) (Option.map (as_record f) o)
            ≡ Option.map (span_bytes (page_in b₁ f)) o
      shows none = refl
      shows (some s) = ap (λ m. some (span_bytes (from_buffer m size_of_heap_page_header) s)) e

  served_lem :
      (f : ℕ) (b₁ : BufferManager D)
      → request dm b rid.page_id ≡ returned f b₁
      → Serves dm k b rid.page_id f b₁
      → (r : Option Record) × (b' : BufferManager D) × (get dm b rid ≡ returned r b') × Read r b'
  unfolding get
  served_lem f b₁ e s =
      let positive : not_positive (frame b₁ f).pin_count ≡ false =
        rw s.pinned (one_more_pin (frame b f).pin_count (room f)) in
      let (b₂, e₂, same, less, others) =
        release_pinned dm k b₁ rid.page_id f s.valid s.there positive in
      let found = SlottedPage.get (page_in b₁ f) rid.slot_id in
      let bytes = request_shows dm k b b₁ rid.page_id f x v q e h in
      (
        Option.map (as_record f) found,
        b₂,
        rw (e, e₂),
        record {
          valid = SameCache-IsValid same s.valid;
          kept = λ p y held. SameCache-Preserves same Stores p y (s.kept p y held);
          pins = λ g. elim (eq_or_ne f g) [
            | inl here ↦
                subst (λ i. (frame b₂ i).pin_count ≡ (frame b i).pin_count) here
                  (omega (arith, less, s.pinned, room f))
            | inr apart ↦ others g apart ∙ s.others g apart
          ];
          akin = Akin-trans k s.akin (SameCache-Akin k same);
          found = found_lem f b₁ b₂ bytes (same.bytes f);
        },
      )

  -- On a valid pool over a disk that keeps pages, with an unpinned frame and room for a pin on
  -- every frame, `Get` of a record of a page that holds a valid slotted page returns the record of
  -- its slot, or nothing for a slot that is deleted or out of range; every page keeps its contents,
  -- every frame its number of pins, and the pool stays valid.
  pub get-Read :
      (g : ℕ)
      → g < length b.pool
      → (frame b g).pin_count ≡ 0
      → (r : Option Record) × (b' : BufferManager D) × (get dm b rid ≡ returned r b') × Read r b'
  get-Read g l z = go _ refl (request-Requested dm k b rid.page_id v q)
    where
      go :
          (o : Outcome (BufferManager D) ℕ)
          → request dm b rid.page_id ≡ o
          → Requested dm k b rid.page_id o
          → (r : Option Record) × (b' : BufferManager D) × (get dm b rid ≡ returned r b')
            × Read r b'
      go o e (served {f} {b'} s) = served_lem f b' e s
      go o e (refused m empty all c) = absurd (all g l z)
