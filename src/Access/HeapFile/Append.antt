-- ===== src/Access/HeapFile/Append.antt =====
-- The pages that a heap file gets from the disk manager: `AllocatePage`, the first page of `Create`,
-- and the page that `HeapFile::Insert` appends.
use cpp_relational_db.Base.{
  ℕ, ◌+◌, ◌^◌, ◌<◌, ◌≡◌, ◌≢◌, inl, inr, refl, sym, ap, subst, some, none, Option, List, length, ltb,
  Bool-cases, if◌then◌else◌,
}
use cpp_relational_db.Storage.Bytes.{Page, SameBytes}
use cpp_relational_db.Storage.Disk.{IDiskManager, KeepsPages, IsPageId, take_id, invalid_page_id}
use cpp_relational_db.Storage.SlottedPage
use cpp_relational_db.Storage.SlottedPage.{size_of_slot, from_buffer}
use cpp_relational_db.Storage.BufferManager.{BufferManager, returned, frame}
use cpp_relational_db.Storage.BufferManager.Invariant.{
  Holds, Preserves, cached, on_disk, SameNames-IsValid,
}
use cpp_relational_db.Storage.BufferManager.Pins.{SameFrames-refl}
use cpp_relational_db.Storage.BufferManager.Clients.{written_self}
use cpp_relational_db.Access.HeapFile.{
  Rid, rid_in, allocate, edit, fill_page, init_heap_page, size_of_heap_page_header,
}
use cpp_relational_db.Access.HeapFile.Ids.{IsSound, Fresh, take_id-Fresh}
use cpp_relational_db.Access.HeapFile.Visit.{
  Ready, Settled, request-Opened, release_written, Opened-SameBytes, write_again,
}
use cpp_relational_db.Access.HeapFile.Chain.{Entry, IsPageOf}
use cpp_relational_db.Access.HeapFile.Shape.{
  appended, blank, IsPageOf-init_heap_page, insert_no_room, insert_fits,
}

-- A pool over another disk.
pub Ready-disk :
    {D : Type 0} (b : BufferManager D) → Ready b → (d : D) → Ready (record b { disk = d })
Ready-disk b r d = record {
  valid =
      SameNames-IsValid
        (record {
          page_table = refl;
          size = refl;
          free_list = refl;
          id = λ f. refl;
          named = λ f l d. r.valid.named f l d;
          clock = r.valid.clock;
          frames = SameFrames-refl b.policy;
        })
        r.valid;
  pin_room = r.pin_room;
  victim = r.victim;
  victim_within = r.victim_within;
  victim_free = r.victim_free;
}

-- The new page, with the record if it fits, and the record's id.
unfoldable pub new_page : ℕ → List ℕ → Entry × Option Rid
new_page id bs =
    if ltb 8180 (length bs + size_of_slot)
    then (blank id, none)
    else (appended (blank id) bs, some (record { page_id = id; slot_id = 0 }))

pub id-new_page : (id : ℕ) (bs : List ℕ) → (new_page id bs).0.id ≡ id
unfolding new_page
id-new_page id bs = elim (Bool-cases (ltb 8180 (length bs + size_of_slot))) [
  | inl h ↦ rw h
  | inr h ↦ rw h
]

-- An insertion into an empty page.
module _ (id : ℕ) (m : Page) (bs : List ℕ) (small : length bs + size_of_slot < 2 ^ 64) where
  abbrev empty : Page
  empty = init_heap_page m

  pub new_page_lem :
      (rid_in id (SlottedPage.insert (from_buffer empty size_of_heap_page_header) bs).1
        ≡ (new_page id bs).1)
      × IsPageOf
          (new_page id bs).0
          invalid_page_id
          (SlottedPage.insert (from_buffer empty size_of_heap_page_header) bs).0.bytes
  unfolding new_page from_buffer
  new_page_lem = elim (Bool-cases (ltb 8180 (length bs + size_of_slot))) [
    | inl h ↦
        let e = insert_no_room (blank id) invalid_page_id empty shape bs small h in
        rw (h, e) (refl, shape)
    | inr h ↦
        let (slot, page) = insert_fits (blank id) invalid_page_id empty shape bs small h in
        rw h (ap (rid_in id) slot, page)
  ]
    where
      shape : IsPageOf (blank id) invalid_page_id empty
      shape = IsPageOf-init_heap_page id m

module _ {D : Type 0} (dm : IDiskManager D) {Stores : D → ℕ → Page → Type 0}
    (k : KeepsPages dm Stores) where
  pub allocate_id : (b : BufferManager D) → (allocate dm b).1 ≡ (take_id (k.ids b.disk)).1
  unfolding allocate
  allocate_id b = ap (λ r. r.1) (k.ids-allocate b.disk)

  pub allocate_ids :
      (b : BufferManager D) → k.ids (allocate dm b).0.disk ≡ (take_id (k.ids b.disk)).0
  unfolding allocate
  allocate_ids b = ap (λ r. r.0) (k.ids-allocate b.disk)

  -- `AllocatePage` gives a page that was not in use, and changes nothing in the pool.
  module _ (b : BufferManager D) (r : Ready b) (sound : IsSound (k.ids b.disk)) where
    pub record Allocated (b' : BufferManager D) (id : ℕ) : Type 0 where
      pub ready : Ready b'
      pub kept : Preserves Stores b b'
      pub pins : (g : ℕ) → (frame b' g).pin_count ≡ (frame b g).pin_count
      pub fresh : Fresh (k.ids b.disk) (k.ids b'.disk) id

    pub allocate-Allocated : Allocated (allocate dm b).0 (allocate dm b).1
    unfolding allocate
    allocate-Allocated = record {
      ready = Ready-disk b r (dm.allocate_page b.disk).0;
      kept = kept;
      pins = λ g. refl;
      fresh =
          let e = sym (k.ids-allocate b.disk) in
          subst (λ t. Fresh (k.ids b.disk) t.0 t.1) e (take_id-Fresh (k.ids b.disk) sound);
    }
      where
        kept : Preserves Stores b (allocate dm b).0
        kept p x (cached f t s (inl d)) = cached f t s (inl d)
        kept p x (cached f t s (inr e)) = cached f t s (inr (k.allocate b.disk p x e))
        kept p x (on_disk t e) = on_disk t (k.allocate b.disk p x e)

  -- A page that is requested, changed, marked dirty and released: `y` is what it held.
  pub record Edited (change : Page → Page) (b : BufferManager D) (pid : ℕ) (y : Page)
      (b' : BufferManager D) : Type 0 where
    pub settled : Settled k b b'
    pub held : (x : Page) → Holds Stores b pid x → SameBytes y x
    pub own : Holds Stores b' pid (change y)
    pub others : (p : ℕ) (z : Page) → p ≢ pid → Holds Stores b p z → Holds Stores b' p z

  pub edit-Edited :
      (change : Page → Page) (b : BufferManager D) (pid : ℕ)
      → Ready b
      → IsPageId pid
      → (y : Page) × (b' : BufferManager D) × (edit dm change b pid ≡ returned tt b')
        × Edited change b pid y b'
  unfolding edit
  edit-Edited change b pid r q =
      let (f, b₁, o) = request-Opened dm k b pid r q in
      let y = (frame b₁ f).bytes in
      let (b₂, e₂, settled, own, others) = release_written dm k b pid r q f b₁ o (change y) in
      (
        y,
        b₂,
        rw (o.requested, e₂),
        record {
          settled = settled;
          held = λ x h. Opened-SameBytes dm k b pid r q f b₁ o x h;
          own = own;
          others = others;
        },
      )

  -- The page that is appended, once it was taken.
  pub fill_page_lem :
      (bs : List ℕ) (b : BufferManager D) (id : ℕ)
      → length bs + size_of_slot < 2 ^ 64
      → Ready b
      → IsPageId id
      → (page : Page) × (b' : BufferManager D) × (fill_page dm bs b id
          ≡ returned (new_page id bs).1 b')
        × Settled k b b'
        × Holds Stores b' id page
        × IsPageOf (new_page id bs).0 invalid_page_id page
        × ((p : ℕ) (z : Page) → p ≢ id → Holds Stores b p z → Holds Stores b' p z)
  unfolding fill_page
  fill_page_lem bs b id small r q =
      let (f, b₁, o) = request-Opened dm k b id r q in
      let m = (frame b₁ f).bytes in
      let within = (o.serves.valid.table id f o.serves.there).0 in
      let shown =
        ap (λ fr. fr.bytes)
          (written_self dm k b₁ id f (init_heap_page m) o.serves.valid o.serves.there) in
      let sp =
        (SlottedPage.insert (from_buffer (init_heap_page m) size_of_heap_page_header) bs).0 in
      let (slot, shape) = new_page_lem id m bs small in
      let (b₂, e₂, settled, own, others) = release_written dm k b id r q f b₁ o sp.bytes in
      (
        sp.bytes,
        b₂,
        rw (o.requested, shown, write_again k b₁ f (init_heap_page m) sp.bytes within, e₂)
            (ap (λ s. returned s b₂) slot),
        settled,
        own,
        shape,
        others,
      )
