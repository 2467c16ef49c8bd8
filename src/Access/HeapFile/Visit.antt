-- ===== src/Access/HeapFile/Visit.antt =====
-- How the operations of a heap file visit a page: a page is requested, read or written through its
-- frame, and released.
use cpp_relational_db.Base.{
  ℕ, ◌+◌, ◌<◌, ◌≡◌, ◌≢◌, inl, inr, refl, sym, ap, ◌∙◌, subst, false, arith, length, set_modify,
  eq_or_ne, length-set,
}
use cpp_relational_db.Storage.Bytes.{Page, SameBytes}
use cpp_relational_db.Storage.Disk.{IDiskManager, KeepsPages, IsPageId}
use cpp_relational_db.Storage.BufferManager.{
  BufferManager, Frame, Outcome, returned, frame, not_positive, request, release, mark_dirty,
  write_data,
}
use cpp_relational_db.Storage.BufferManager.Invariant.{
  IsValid, Holds, Preserves, Akin, Akin-trans, SameCache-IsValid, SameCache-Preserves,
  SameCache-Akin,
}
use cpp_relational_db.Storage.BufferManager.Load.{Serves}
use cpp_relational_db.Storage.BufferManager.Request.{Requested, served, refused, request-Requested}
use cpp_relational_db.Storage.BufferManager.Clients.{request_shows, release_pinned}
use cpp_relational_db.Access.HeapFile.Reads.{HasPinRoom, one_more_pin}
use cpp_relational_db.Access.HeapFile.Finish.{write-Wrote}

-- A valid pool that can serve a request: every frame has room for a pin, and one has none.
pub record Ready {D : Type 0} (b : BufferManager D) : Type 0 where
  pub valid : IsValid b
  pub pin_room : HasPinRoom b
  pub victim : ℕ
  pub victim_within : victim < length b.pool
  pub victim_free : (frame b victim).pin_count ≡ 0

-- `b'` is a valid pool like `b`, with as many pins on every frame.
pub record Settled {D : Type 0} {dm : IDiskManager D} {Stores : D → ℕ → Page → Type 0}
    (k : KeepsPages dm Stores) (b b' : BufferManager D) : Type 0 where
  pub valid : IsValid b'
  pub pins : (g : ℕ) → (frame b' g).pin_count ≡ (frame b g).pin_count
  pub akin : Akin k b b'

module _ {D : Type 0} {dm : IDiskManager D} {Stores : D → ℕ → Page → Type 0}
    (k : KeepsPages dm Stores) {b b' : BufferManager D} where
  pub Settled-Ready : Settled k b b' → Ready b → Ready b'
  Settled-Ready s r = record {
    valid = s.valid;
    pin_room = λ g. rw (s.pins g) (r.pin_room g);
    victim = r.victim;
    victim_within = rw (s.akin.size) r.victim_within;
    victim_free = s.pins r.victim ∙ r.victim_free;
  }

  pub Settled-trans : {b'' : BufferManager D} → Settled k b b' → Settled k b' b'' → Settled k b b''
  Settled-trans s t = record {
    valid = t.valid;
    pins = λ g. t.pins g ∙ s.pins g;
    akin = Akin-trans k s.akin t.akin;
  }

pub Settled-refl :
    {D : Type 0} {dm : IDiskManager D} {Stores : D → ℕ → Page → Type 0} (k : KeepsPages dm Stores)
    {b : BufferManager D}
    → Ready b
    → Settled k b b
Settled-refl k r = record {
  valid = r.valid;
  pins = λ g. refl;
  akin = record { size = refl; ids = refl };
}

-- A write through a frame and `mark_dirty`.
module _ {D : Type 0} {dm : IDiskManager D} {Stores : D → ℕ → Page → Type 0}
    (k : KeepsPages dm Stores) (b : BufferManager D) (f : ℕ) (y : Page) where
  pub written-Akin : Akin k b (mark_dirty (write_data b f y) f)
  unfolding mark_dirty write_data
  written-Akin = record {
    size = length-set (write_data b f y).pool f _ ∙ length-set b.pool f _;
    ids = refl;
  }

  -- What is written after the frame was marked dirty could have been written before.
  pub write_again :
      (z : Page)
      → f < length b.pool
      → write_data (mark_dirty (write_data b f y) f) f z ≡ mark_dirty (write_data b f z) f
  unfolding mark_dirty write_data
  write_again z h =
      ap (λ p. record b { pool = p })
        (set_modify (write_data b f y).pool f _ fresh (λ fr. record fr { bytes = z })
            (rw (length-set b.pool f (record (frame b f) { bytes = y })) h)
          ∙ set_modify b.pool f (record (frame b f) { bytes = y }) fresh
              (λ fr. record fr { dirty = 1; bytes = z }) h
          ∙ sym (
              set_modify b.pool f (record (frame b f) { bytes = z }) fresh
                (λ fr. record fr { dirty = 1 }) h))
    where
      fresh : Frame
      fresh = record { page_id = 4294967295; pin_count = 0; dirty = 0; bytes = λ _. 0 }

module _ {D : Type 0} (dm : IDiskManager D) {Stores : D → ℕ → Page → Type 0}
    (k : KeepsPages dm Stores) (b : BufferManager D) (pid : ℕ) (r : Ready b)
    (q : IsPageId pid) where
  -- The page is in the frame `f` of `b₁`, and the frame's pin can be taken back.
  pub record Opened (f : ℕ) (b₁ : BufferManager D) : Type 0 where
    pub requested : request dm b pid ≡ returned f b₁
    pub serves : Serves dm k b pid f b₁
    pub positive : not_positive (frame b₁ f).pin_count ≡ false

  pub request-Opened : (f : ℕ) × (b₁ : BufferManager D) × Opened f b₁
  request-Opened = go _ refl (request-Requested dm k b pid r.valid q)
    where
      go :
          (o : Outcome (BufferManager D) ℕ)
          → request dm b pid ≡ o
          → Requested dm k b pid o
          → (f : ℕ) × (b₁ : BufferManager D) × Opened f b₁
      go o e (served {f} {b' = b₁} s) = (
        f,
        b₁,
        record {
          requested = e;
          serves = s;
          positive = rw s.pinned (one_more_pin (frame b f).pin_count (r.pin_room f));
        },
      )
      go o e (refused m empty all c) = absurd (all r.victim r.victim_within r.victim_free)

  module _ (f : ℕ) (b₁ : BufferManager D) (o : Opened f b₁) where
    pub Opened-SameBytes : (x : Page) → Holds Stores b pid x → SameBytes (frame b₁ f).bytes x
    Opened-SameBytes x h = request_shows dm k b b₁ pid f x r.valid q o.requested h

    pub pins_back :
        (b₂ : BufferManager D)
        → (frame b₂ f).pin_count + 1 ≡ (frame b₁ f).pin_count
        → ((g : ℕ) → f ≢ g → (frame b₂ g).pin_count ≡ (frame b₁ g).pin_count)
        → (g : ℕ) → (frame b₂ g).pin_count ≡ (frame b g).pin_count
    pins_back b₂ less others g = elim (eq_or_ne f g) [
      | inl here ↦
          subst (λ i. (frame b₂ i).pin_count ≡ (frame b i).pin_count) here
            (omega (arith, less, o.serves.pinned, r.pin_room f))
      | inr apart ↦ others g apart ∙ o.serves.others g apart
    ]

    -- A page that was only read.
    pub release_read :
        (b₂ : BufferManager D) × (release b₁ pid ≡ returned tt b₂)
        × Settled k b b₂
        × Preserves Stores b b₂
        × ((frame b₂ f).bytes ≡ (frame b₁ f).bytes)
    release_read =
        let s = o.serves in
        let (b₂, e, same, less, others) = release_pinned dm k b₁ pid f s.valid s.there o.positive in
        (
          b₂,
          e,
          record {
            valid = SameCache-IsValid same s.valid;
            pins = pins_back b₂ less others;
            akin = Akin-trans k s.akin (SameCache-Akin k same);
          },
          λ p y held. SameCache-Preserves same Stores p y (s.kept p y held),
          same.bytes f,
        )

    -- A page that was written and marked dirty.
    pub release_written :
        (y : Page)
        → (b₂ : BufferManager D) × (release (mark_dirty (write_data b₁ f y) f) pid ≡ returned tt b₂)
          × Settled k b b₂
          × Holds Stores b₂ pid y
          × ((p : ℕ) (z : Page) → p ≢ pid → Holds Stores b p z → Holds Stores b₂ p z)
    release_written y =
        let s = o.serves in
        let w = write-Wrote dm k b₁ pid f s.valid s.there y in
        let c = mark_dirty (write_data b₁ f y) f in
        let (b₂, e, same, less, others) =
          release_pinned dm k c pid f w.valid w.there (rw (w.pins f) o.positive) in
        (
          b₂,
          e,
          record {
            valid = SameCache-IsValid same w.valid;
            pins = pins_back b₂ (less ∙ w.pins f) (λ g ne. others g ne ∙ w.pins g);
            akin =
                Akin-trans k s.akin (Akin-trans k (written-Akin k b₁ f y) (SameCache-Akin k same));
          },
          SameCache-Preserves same Stores pid y w.own,
          λ p z ne held. SameCache-Preserves same Stores p z (w.others p z ne (s.kept p z held)),
        )
