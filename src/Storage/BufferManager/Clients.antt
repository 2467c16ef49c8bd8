-- ===== src/Storage/BufferManager/Clients.antt =====
-- What clients do to a pinned frame, and `release()`.
use cpp_relational_db.Base.{
  ℕ, ◌+◌, ◌^◌, ◌<◌, ◌≡◌, ◌≢◌, ◌⊎◌, inl, inr, refl, sym, ap, ◌∙◌, subst, some, false, arith, length,
  eq_or_ne, length-set,
}
use cpp_relational_db.Storage.Bytes.{Page, SameBytes}
use cpp_relational_db.Storage.Disk.{IDiskManager, KeepsPages, IsPageId}
use cpp_relational_db.Storage.BufferManager.{
  Frame, BufferManager, Outcome, returned, frame, not_positive, unpin, note_unpin, mark_dirty,
  write_data, release, request,
}
use cpp_relational_db.Storage.BufferManager.Frames.{frame-set_frame_self, frame-set_frame_ne}
use cpp_relational_db.Storage.BufferManager.Invariant.{
  IsValid, Holds, cached, on_disk, SameNames, SameNames-IsValid, SameCache, SameCache-IsValid,
}
use cpp_relational_db.Storage.BufferManager.Pins.{
  unpin_self, unpin_ne, note_unpin_lem, SameFrames-refl, SameCache-trans, unpin-SameCache,
}
use cpp_relational_db.Storage.BufferManager.Load.{Serves}
use cpp_relational_db.Storage.BufferManager.Request.{Requested, served, refused, request-Requested}

module _ {D : Type 0} (dm : IDiskManager D) {Stores : D → ℕ → Page → Type 0}
    (k : KeepsPages dm Stores) where
  -- A write through `frame->data`, and `mark_dirty(frame)`.
  module _ (b : BufferManager D) (pid f : ℕ) (x : Page) (v : IsValid b)
      (t : b.page_table pid ≡ some f) where
    abbrev written : BufferManager D
    written = mark_dirty (write_data b f x) f

    abbrev new : Frame
    new = record (frame b f) { bytes = x; dirty = 1 }

    within : f < length b.pool
    within = (v.table pid f t).0

    written_size : length written.pool ≡ length b.pool
    unfolding mark_dirty write_data
    written_size = length-set (write_data b f x).pool f _ ∙ length-set b.pool f _

    pub written_self : frame written f ≡ new
    unfolding mark_dirty write_data
    written_self =
        let first = frame-set_frame_self b f (record (frame b f) { bytes = x }) within in
        frame-set_frame_self (write_data b f x) f _
          (rw (length-set b.pool f (record (frame b f) { bytes = x })) within)
        ∙ ap (λ (fr : Frame). record fr { dirty = 1 }) first

    written_ne : (g : ℕ) → f ≢ g → frame written g ≡ frame b g
    unfolding mark_dirty write_data
    written_ne g ne =
        frame-set_frame_ne (write_data b f x) f _ g ne
        ∙ frame-set_frame_ne b f (record (frame b f) { bytes = x }) g ne

    written-SameNames : SameNames b written
    unfolding mark_dirty write_data
    written-SameNames = record {
      page_table = refl;
      size = written_size;
      free_list = refl;
      id = λ g. elim (eq_or_ne f g) [
        | inl same ↦
            subst (λ h. (frame written h).page_id ≡ (frame b h).page_id) same
              (ap (λ fr. fr.page_id) written_self)
        | inr ne ↦ ap (λ fr. fr.page_id) (written_ne g ne)
      ];
      named = λ g l d. elim (eq_or_ne f g) [
        | inl same ↦
            subst (λ h. IsPageId (frame b h).page_id) same
              (let (_, i, q) = v.table pid f t in subst IsPageId (sym i) q)
        | inr ne ↦ v.named g l (λ z. d (ap (λ fr. fr.dirty) (written_ne g ne) ∙ z))
      ];
      clock = v.clock;
      frames = SameFrames-refl b.policy;
    }

    -- When a page of a valid pool is in a frame, new contents written through the frame and
    -- `mark_dirty` make them the contents of the page, every other page keeps its contents,
    -- and the pool stays valid.
    pub write_lem :
        IsValid written
        × Holds Stores written pid x
        × ((p : ℕ) (y : Page) → p ≢ pid → Holds Stores b p y → Holds Stores written p y)
    write_lem = (SameNames-IsValid written-SameNames v, own, other)
      where
        own : Holds Stores written pid x
        own =
            cached f (rw written-SameNames.page_table t) (λ i l. ap (λ fr. fr.bytes i) written_self)
              (inl (λ z. one_zero (sym (ap (λ fr. fr.dirty) written_self) ∙ z)))
          where
            one_zero : ¬ (◌≡◌ {A = ℕ} 1 0)
            one_zero e = omega arith

        other : (p : ℕ) (y : Page) → p ≢ pid → Holds Stores b p y → Holds Stores written p y
        other p y ne (cached g t' e w) =
            let apart : f ≢ g = λ i. ne (
              sym ((v.table p g t').1)
              ∙ subst (λ h. (frame b h).page_id ≡ pid) i ((v.table pid f t).1)) in
            cached g (rw written-SameNames.page_table t')
              (subst (λ fr. SameBytes fr.bytes y) (sym (written_ne g apart)) e)
              (subst (λ fr. (fr.dirty ≢ 0) ⊎ Stores written.disk p y) (sym (written_ne g apart))
                (unfold mark_dirty write_data in w))
        other p y ne (on_disk t' e) =
            on_disk (rw written-SameNames.page_table t') (unfold mark_dirty write_data in e)

  -- What a request that returned has done.
  pub request_served :
      (b b' : BufferManager D) (pid f : ℕ)
      → IsValid b
      → IsPageId pid
      → request dm b pid ≡ returned f b'
      → Serves dm k b pid f b'
  request_served b b' pid f v q e = go _ e (request-Requested dm k b pid v q)
    where
      go :
          (o : Outcome (BufferManager D) ℕ)
          → o ≡ returned f b'
          → Requested dm k b pid o
          → Serves dm k b pid f b'
      go o e' (served {f = g} {b' = c} s) =
          let eg : g ≡ f = cc in
          let ec : c ≡ b' = cc in
          subst (λ d. Serves dm k b pid f d) ec (subst (λ h. Serves dm k b pid h c) eg s)
      go o e' (refused m l a c) = cc

  -- When `request` of a page returns a frame of a valid pool over a disk that keeps pages, the
  -- frame's data are the contents that the page had in the pool or on the disk.
  pub request_shows :
      (b b' : BufferManager D) (pid f : ℕ) (x : Page)
      → IsValid b
      → IsPageId pid
      → request dm b pid ≡ returned f b'
      → Holds Stores b pid x
      → SameBytes (frame b' f).bytes x
  request_shows b b' pid f x v q e h =
      let s = request_served b b' pid f v q e in in_frame (s.kept pid x h) s.there
    where
      in_frame : Holds Stores b' pid x → b'.page_table pid ≡ some f → SameBytes (frame b' f).bytes x
      in_frame (cached g t s w) there =
          let same : g ≡ f = let e = sym t ∙ there in cc in
          subst (λ h. SameBytes (frame b' h).bytes x) same s
      in_frame (on_disk t s) there = cc

  positive_lem : (n : ℕ) → not_positive n ≡ false → (0 < n) × (n < 2 ^ 31)
  positive_lem n h = ground arith

  -- On a valid pool, `release` of a page whose frame has a positive pin count takes one pin
  -- from that frame and none from another, and leaves the page table, the free list, the disk
  -- and the frames' pages, data and dirty flags as they were.
  pub release_pinned :
      (b : BufferManager D) (pid f : ℕ)
      → IsValid b
      → b.page_table pid ≡ some f
      → not_positive (frame b f).pin_count ≡ false
      → (b' : BufferManager D) × (release b pid ≡ returned tt b')
        × SameCache b b'
        × ((frame b' f).pin_count + 1 ≡ (frame b f).pin_count)
        × ((g : ℕ) → f ≢ g → (frame b' g).pin_count ≡ (frame b g).pin_count)
  unfolding release
  release_pinned b pid f v t positive =
      let (l, _, _) = v.table pid f t in
      let first = unpin-SameCache b f in
      let (second, pins) = note_unpin_lem (unpin b f) f (SameCache-IsValid first v) in
      rw (t, release)
        (rw positive (
          note_unpin (unpin b f) f,
          refl,
          SameCache-trans first second,
          omega (arith, pins f, unpin_self b f l, positive_lem (frame b f).pin_count positive),
          λ g ne. pins g ∙ unpin_ne b f g ne,
        ))
