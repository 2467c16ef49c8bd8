-- ===== src/Storage/BufferManager/Invariant.antt =====
-- The invariant of the buffer pool, and what a page holds as its clients see it.
use cpp_relational_db.Base.{
  ap, ℕ, ◌<◌, ◌≡◌, ◌≢◌, ◌⊎◌, sym, ◌∙◌, none, some, true, length, has, NoDup,
}
use cpp_relational_db.Storage.Bytes.{Page, SameBytes}
use cpp_relational_db.Storage.Disk.{IDiskManager, KeepsPages, IsPageId, invalid_page_id}
use cpp_relational_db.Storage.ClockPolicy.Valid
use cpp_relational_db.Storage.ClockPolicy.Valid.{SameFrames}
use cpp_relational_db.Storage.ClockPolicy.Sweep.{frame_at}
use cpp_relational_db.Storage.BufferManager.{BufferManager, frame}

-- The page table and the frames' page ids say the same, dirty frames hold a page, the free list
-- lists frames without one, each once, and the policy's frames are those of the pool.
pub record IsValid {D : Type 0} (b : BufferManager D) : Type 0 where
  pub table :
      (p f : ℕ)
      → b.page_table p ≡ some f
      → (f < length b.pool) × ((frame b f).page_id ≡ p) × IsPageId p
  pub mapped :
      (f : ℕ)
      → f < length b.pool
      → IsPageId (frame b f).page_id
      → b.page_table (frame b f).page_id ≡ some f
  pub ids :
      (f : ℕ)
      → f < length b.pool
      → ((frame b f).page_id ≡ invalid_page_id) ⊎ IsPageId (frame b f).page_id
  pub named : (f : ℕ) → f < length b.pool → (frame b f).dirty ≢ 0 → IsPageId (frame b f).page_id
  pub free :
      (f : ℕ)
      → has b.free_list f ≡ true
      → (f < length b.pool) × ((frame b f).page_id ≡ invalid_page_id)
  pub nodup : NoDup b.free_list
  pub clock : Valid.IsValid b.policy
  pub clock_size : b.policy.n ≡ length b.pool
  pub clock_frames : (i : ℕ) → i < length b.pool → frame_at b.policy i ≡ i

-- The contents of page `p` are `x`: its frame has them, and where the frame is clean the disk has
-- them too; or the page is in no frame and the disk has them.
pub data Holds {D : Type 0} (Stores : D → ℕ → Page → Type 0) (b : BufferManager D) (p : ℕ)
    (x : Page) : Type 0 where
  cached :
      (f : ℕ)
      → b.page_table p ≡ some f
      → SameBytes (frame b f).bytes x
      → ((frame b f).dirty ≢ 0) ⊎ Stores b.disk p x
      → Holds Stores b p x
  on_disk : b.page_table p ≡ none → Stores b.disk p x → Holds Stores b p x

-- Two states with pools of one size, over disks that give out the same page ids.
pub record Akin {D : Type 0} {dm : IDiskManager D} {Stores : D → ℕ → Page → Type 0}
    (k : KeepsPages dm Stores) (b b' : BufferManager D) : Type 0 where
  pub size : length b'.pool ≡ length b.pool
  pub ids : k.ids b'.disk ≡ k.ids b.disk

-- No page that has contents loses them.
abbrev pub Preserves :
    {D : Type 0} → (D → ℕ → Page → Type 0) → BufferManager D → BufferManager D → Type 0
Preserves Stores b b' = (p : ℕ) (x : Page) → Holds Stores b p x → Holds Stores b' p x

-- Two states with the same pages in the same frames, whatever the frames hold.
pub record SameNames {D : Type 0} (b b' : BufferManager D) : Type 0 where
  pub page_table : b'.page_table ≡ b.page_table
  pub size : length b'.pool ≡ length b.pool
  pub free_list : b'.free_list ≡ b.free_list
  pub id : (f : ℕ) → (frame b' f).page_id ≡ (frame b f).page_id
  pub named : (f : ℕ) → f < length b.pool → (frame b' f).dirty ≢ 0 → IsPageId (frame b f).page_id
  pub clock : Valid.IsValid b'.policy
  pub frames : SameFrames b.policy b'.policy

pub SameNames-IsValid :
    {D : Type 0} {b b' : BufferManager D} → SameNames b b' → IsValid b → IsValid b'
SameNames-IsValid s v = record {
  table =
      λ p f e. let (l, i, q) = v.table p f (rw s.page_table at e) in (rw s.size l, s.id f ∙ i, q);
  mapped = λ f l q. rw (s.page_table, s.id f) (v.mapped f (rw s.size at l) (rw (s.id f) at q));
  ids = λ f l. rw (s.id f) (v.ids f (rw s.size at l));
  named = λ f l d. rw (s.id f) (s.named f (rw s.size at l) d);
  free = λ f h. let (l, i) = v.free f (rw s.free_list at h) in (rw s.size l, s.id f ∙ i);
  nodup = rw s.free_list v.nodup;
  clock = s.clock;
  clock_size = s.frames.n ∙ v.clock_size ∙ sym s.size;
  clock_frames = λ i l. rw s.frames.frames (v.clock_frames i (rw s.size at l));
}

-- Two states that differ in pin counts and in the policy's bits and hand at most.
pub record SameCache {D : Type 0} (b b' : BufferManager D) : Type 0 where
  pub page_table : b'.page_table ≡ b.page_table
  pub size : length b'.pool ≡ length b.pool
  pub free_list : b'.free_list ≡ b.free_list
  pub disk : b'.disk ≡ b.disk
  pub id : (f : ℕ) → (frame b' f).page_id ≡ (frame b f).page_id
  pub dirty : (f : ℕ) → (frame b' f).dirty ≡ (frame b f).dirty
  pub bytes : (f : ℕ) → (frame b' f).bytes ≡ (frame b f).bytes
  pub clock : Valid.IsValid b.policy → Valid.IsValid b'.policy
  pub frames : SameFrames b.policy b'.policy

module _ {D : Type 0} {b b' : BufferManager D} (s : SameCache b b') where
  pub SameCache-IsValid : IsValid b → IsValid b'
  SameCache-IsValid v =
      SameNames-IsValid
        (record {
          page_table = s.page_table;
          size = s.size;
          free_list = s.free_list;
          id = s.id;
          named = λ f l d. v.named f l (λ z. d (s.dirty f ∙ z));
          clock = s.clock v.clock;
          frames = s.frames;
        })
        v

  pub SameCache-Preserves : (Stores : D → ℕ → Page → Type 0) → Preserves Stores b b'
  SameCache-Preserves Stores p x (cached f t e w) =
      cached f (rw s.page_table t) (rw (s.bytes f) e) (rw (s.dirty f, s.disk) w)
  SameCache-Preserves Stores p x (on_disk t e) = on_disk (rw s.page_table t) (rw s.disk e)

module _ {D : Type 0} {dm : IDiskManager D} {Stores : D → ℕ → Page → Type 0}
    (k : KeepsPages dm Stores) {b b' : BufferManager D} where
  pub SameCache-Akin : SameCache b b' → Akin k b b'
  SameCache-Akin s = record { size = s.size; ids = ap k.ids s.disk }

  pub Akin-trans : {b'' : BufferManager D} → Akin k b b' → Akin k b' b'' → Akin k b b''
  Akin-trans s t = record { size = t.size ∙ s.size; ids = t.ids ∙ s.ids }
