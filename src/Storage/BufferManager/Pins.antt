-- ===== src/Storage/BufferManager/Pins.antt =====
-- Pinning, unpinning and the events of the replacement policy leave the cached pages alone;
-- `release` on each of its branches.
use cpp_relational_db.Base.{
  ℕ, ◌+◌, ◌-◌, ◌%◌, ◌^◌, ◌<◌, ◌≡◌, ◌≢◌, inl, inr, refl, ap, ◌∙◌, none, some, true, ◌==◌, length,
  Bool-cases, length-set,
}
use cpp_relational_db.Storage.ClockPolicy.{ClockPolicy}
use cpp_relational_db.Storage.ClockPolicy.Valid
use cpp_relational_db.Storage.ClockPolicy.Valid.{
  SameFrames, record_access-IsValid, record_load-IsValid, record_unpin-IsValid,
}
use cpp_relational_db.Storage.BufferManager.{
  BufferManager, page_not_found, pin_count_zero, thrown, frame, not_positive, pin, unpin,
  note_unpin, release,
}
use cpp_relational_db.Storage.BufferManager.Frames.{
  pin-frame, unpin-frame, frame-set_frame_self, frame-set_frame_ne,
}
use cpp_relational_db.Storage.BufferManager.Invariant.{IsValid, SameCache}

pub SameFrames-refl : (c : ClockPolicy) → SameFrames c c
SameFrames-refl c = record { n = refl; frames = refl; frame_idx = refl }

SameFrames-trans : {a b c : ClockPolicy} → SameFrames a b → SameFrames b c → SameFrames a c
SameFrames-trans x y = record {
  n = y.n ∙ x.n;
  frames = y.frames ∙ x.frames;
  frame_idx = y.frame_idx ∙ x.frame_idx;
}

module _ {D : Type 0} where
  pub SameCache-trans : {a b c : BufferManager D} → SameCache a b → SameCache b c → SameCache a c
  SameCache-trans x y = record {
    page_table = y.page_table ∙ x.page_table;
    size = y.size ∙ x.size;
    free_list = y.free_list ∙ x.free_list;
    disk = y.disk ∙ x.disk;
    id = λ f. y.id f ∙ x.id f;
    dirty = λ f. y.dirty f ∙ x.dirty f;
    bytes = λ f. y.bytes f ∙ x.bytes f;
    clock = λ v. y.clock (x.clock v);
    frames = SameFrames-trans x.frames y.frames;
  }

  pub pin-SameCache : (b : BufferManager D) (f : ℕ) → SameCache b (pin b f)
  unfolding pin
  pin-SameCache b f = record {
    page_table = refl;
    size = length-set b.pool f _;
    free_list = refl;
    disk = refl;
    id = λ g. (pin-frame b f g).0;
    dirty = λ g. (pin-frame b f g).1;
    bytes = λ g. (pin-frame b f g).2;
    clock = λ v. v;
    frames = SameFrames-refl b.policy;
  }

  pub unpin-SameCache : (b : BufferManager D) (f : ℕ) → SameCache b (unpin b f)
  unfolding unpin
  unpin-SameCache b f = record {
    page_table = refl;
    size = length-set b.pool f _;
    free_list = refl;
    disk = refl;
    id = λ g. (unpin-frame b f g).0;
    dirty = λ g. (unpin-frame b f g).1;
    bytes = λ g. (unpin-frame b f g).2;
    clock = λ v. v;
    frames = SameFrames-refl b.policy;
  }

  -- Any new policy over the same frames.
  pub policy-SameCache :
      (b : BufferManager D) (c : ClockPolicy)
      → (Valid.IsValid b.policy → Valid.IsValid c)
      → SameFrames b.policy c
      → SameCache b (record b { policy = c })
  policy-SameCache b c v s = record {
    page_table = refl;
    size = refl;
    free_list = refl;
    disk = refl;
    id = λ f. refl;
    dirty = λ f. refl;
    bytes = λ f. refl;
    clock = v;
    frames = s;
  }

  -- `release` of a page in no frame throws, and changes nothing.
  pub release_missing :
      (b : BufferManager D) (pid : ℕ)
      → b.page_table pid ≡ none
      → release b pid ≡ thrown page_not_found b
  unfolding release
  release_missing b pid e = rw (e, release)

  -- `release` of a page that is not pinned throws, and changes nothing.
  pub release_unpinned :
      (b : BufferManager D) (pid f : ℕ)
      → b.page_table pid ≡ some f
      → not_positive (frame b f).pin_count ≡ true
      → release b pid ≡ thrown pin_count_zero b
  unfolding release
  release_unpinned b pid f e z = rw (e, release) (rw z)

  pub pin_self :
      (b : BufferManager D) (f : ℕ)
      → f < length b.pool
      → (frame (pin b f) f).pin_count ≡ ((frame b f).pin_count + 1) % 2 ^ 32
  unfolding pin
  pin_self b f l = ap (λ fr. fr.pin_count) (frame-set_frame_self b f _ l)

  pub pin_ne :
      (b : BufferManager D) (f g : ℕ)
      → f ≢ g
      → (frame (pin b f) g).pin_count ≡ (frame b g).pin_count
  unfolding pin
  pin_ne b f g ne = ap (λ fr. fr.pin_count) (frame-set_frame_ne b f _ g ne)

  pub unpin_self :
      (b : BufferManager D) (f : ℕ)
      → f < length b.pool
      → (frame (unpin b f) f).pin_count ≡ ((frame b f).pin_count + 2 ^ 32 - 1) % 2 ^ 32
  unfolding unpin
  unpin_self b f l = ap (λ fr. fr.pin_count) (frame-set_frame_self b f _ l)

  pub unpin_ne :
      (b : BufferManager D) (f g : ℕ)
      → f ≢ g
      → (frame (unpin b f) g).pin_count ≡ (frame b g).pin_count
  unfolding unpin
  unpin_ne b f g ne = ap (λ fr. fr.pin_count) (frame-set_frame_ne b f _ g ne)

  pub note_unpin_lem :
      (b : BufferManager D) (f : ℕ)
      → IsValid b
      → SameCache b (note_unpin b f)
        × ((g : ℕ) → (frame (note_unpin b f) g).pin_count ≡ (frame b g).pin_count)
  unfolding note_unpin
  note_unpin_lem b f v = elim (Bool-cases ((frame b f).pin_count == 0)) [
    | inl z ↦ rw z (
      policy-SameCache b _ (λ w. (record_unpin-IsValid b.policy f w).0)
          (record_unpin-IsValid b.policy f v.clock).1,
      λ g. refl,
    )
    | inr nz ↦ rw nz (policy-SameCache b b.policy (λ w. w) (SameFrames-refl b.policy), λ g. refl)
  ]
