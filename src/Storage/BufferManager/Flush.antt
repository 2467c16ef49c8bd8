-- ===== src/Storage/BufferManager/Flush.antt =====
-- Writing frames back to the disk.
use cpp_relational_db.Base.{
  ℕ, ◌<◌, ◌≡◌, ◌≢◌, ◌⊎◌, inl, inr, refl, sym, ap, ◌∙◌, subst, some, ◌==◌, length, Bool-cases,
  eq_or_ne, ==→eq, ==→ne, length-set,
}
use cpp_relational_db.Storage.Bytes.{Page, SameBytes}
use cpp_relational_db.Storage.Disk.{IDiskManager, KeepsPages, IsPageId}
use cpp_relational_db.Storage.ClockPolicy.Valid
use cpp_relational_db.Storage.ClockPolicy.Valid.{
  SameFrames, record_access-IsValid, record_load-IsValid, record_unpin-IsValid,
}
use cpp_relational_db.Storage.BufferManager.{Frame, BufferManager, frame, flush, flush_if_dirty}
use cpp_relational_db.Storage.BufferManager.Frames.{frame-set_frame_self, frame-set_frame_ne}
use cpp_relational_db.Storage.BufferManager.Invariant.{
  Akin, IsValid, Holds, cached, on_disk, Preserves, SameNames, SameNames-IsValid,
}
use cpp_relational_db.Storage.BufferManager.Pins.{SameFrames-refl}

module _ {D : Type 0} (dm : IDiskManager D) {Stores : D → ℕ → Page → Type 0}
    (k : KeepsPages dm Stores) where
  -- Writing back a dirty frame keeps the invariant and all contents.
  module _ (b : BufferManager D) (f : ℕ) (v : IsValid b) (l : f < length b.pool)
      (d : (frame b f).dirty ≢ 0) where
    clean : Frame
    clean = record (frame b f) { dirty = 0 }

    flush_self : frame (flush dm b f) f ≡ clean
    unfolding flush clean
    flush_self = frame-set_frame_self b f (record (frame b f) { dirty = 0 }) l

    flush_ne : (g : ℕ) → f ≢ g → frame (flush dm b f) g ≡ frame b g
    unfolding flush
    flush_ne g ne = frame-set_frame_ne b f (record (frame b f) { dirty = 0 }) g ne

    flush_id : (g : ℕ) → (frame (flush dm b f) g).page_id ≡ (frame b g).page_id
    unfolding clean
    flush_id g = elim (eq_or_ne f g) [
      | inl e ↦
          subst (λ h. (frame (flush dm b f) h).page_id ≡ (frame b h).page_id) e
            (ap (λ fr. fr.page_id) flush_self)
      | inr ne ↦ ap (λ fr. fr.page_id) (flush_ne g ne)
    ]

    flush_size : length (flush dm b f).pool ≡ length b.pool
    unfolding flush
    flush_size = length-set b.pool f _

    flush-SameNames : SameNames b (flush dm b f)
    flush-SameNames = record {
      page_table = table;
      size = flush_size;
      free_list = listed;
      id = flush_id;
      named = named;
      clock = subst Valid.IsValid (sym policy) v.clock;
      frames = subst (SameFrames b.policy) (sym policy) (SameFrames-refl b.policy);
    }
      where
        table : (flush dm b f).page_table ≡ b.page_table
        table = unfold flush in refl

        listed : (flush dm b f).free_list ≡ b.free_list
        listed = unfold flush in refl

        policy : (flush dm b f).policy ≡ b.policy
        policy = unfold flush in refl

        named :
            (g : ℕ)
            → g < length b.pool
            → (frame (flush dm b f) g).dirty ≢ 0
            → IsPageId (frame b g).page_id
        named g m e = elim (eq_or_ne f g) [
          | inl same ↦ subst (λ h. IsPageId (frame b h).page_id) same (v.named f l d)
          | inr ne ↦ v.named g m (λ z. e (ap (λ fr. fr.dirty) (flush_ne g ne) ∙ z))
        ]

    pub flush-IsValid : IsValid (flush dm b f)
    flush-IsValid = SameNames-IsValid flush-SameNames v

    flush_pins : (g : ℕ) → (frame (flush dm b f) g).pin_count ≡ (frame b g).pin_count
    unfolding clean
    flush_pins g = elim (eq_or_ne f g) [
      | inl same ↦
          subst (λ h. (frame (flush dm b f) h).pin_count ≡ (frame b h).pin_count) same
            (ap (λ fr. fr.pin_count) flush_self)
      | inr ne ↦ ap (λ fr. fr.pin_count) (flush_ne g ne)
    ]

    flush_dirty : (frame (flush dm b f) f).dirty ≡ 0
    unfolding clean
    flush_dirty = ap (λ fr. fr.dirty) flush_self

    flushed : Stores (flush dm b f).disk (frame b f).page_id (frame b f).bytes
    unfolding flush
    flushed = k.writes b.disk (frame b f).page_id (frame b f).bytes (v.named f l d)

    disk_kept :
        (q : ℕ) (x : Page)
        → (frame b f).page_id ≢ q
        → Stores b.disk q x
        → Stores (flush dm b f).disk q x
    unfolding flush
    disk_kept q x ne s =
        k.keeps b.disk (frame b f).page_id q x (frame b f).bytes (v.named f l d) ne s

    -- The page of the frame, and every other page.
    flush_own :
        (p : ℕ) (x : Page)
        → b.page_table p ≡ some f
        → SameBytes (frame b f).bytes x
        → Holds Stores (flush dm b f) p x
    unfolding clean
    flush_own p x t e =
        cached f (rw flush-SameNames.page_table t)
          (subst (λ fr. SameBytes fr.bytes x) (sym flush_self) e)
          (inr (
            k.same _ p _ x e (
              subst (λ q. Stores (flush dm b f).disk q (frame b f).bytes) (v.table p f t).1
                flushed)))

    page_of : (p : ℕ) → (frame b f).page_id ≡ p → b.page_table p ≡ some f
    page_of p e = subst (λ q. b.page_table q ≡ some f) e (v.mapped f l (v.named f l d))

    flush_other :
        (p g : ℕ) (x : Page)
        → f ≢ g
        → b.page_table p ≡ some g
        → ((frame b g).dirty ≢ 0) ⊎ Stores b.disk p x
        → ((frame (flush dm b f) g).dirty ≢ 0) ⊎ Stores (flush dm b f).disk p x
    flush_other p g x ne t (inl dirty) =
        inl (λ z. dirty (ap (λ fr. fr.dirty) (sym (flush_ne g ne)) ∙ z))
    flush_other p g x ne t (inr s) = inr (disk_kept p x (λ e. let t' = page_of p e in ne (cc)) s)

    pub flush-Preserves : Preserves Stores b (flush dm b f)
    flush-Preserves p x (cached g t e w) = elim (eq_or_ne f g) [
      | inl same ↦
          flush_own p x (t ∙ ap some (sym same))
            (subst (λ h. SameBytes (frame b h).bytes x) (sym same) e)
      | inr ne ↦
          cached g (rw flush-SameNames.page_table t)
            (subst (λ fr. SameBytes fr.bytes x) (sym (flush_ne g ne)) e) (flush_other p g x ne t w)
    ]
    flush-Preserves p x (on_disk t e) =
        on_disk (rw flush-SameNames.page_table t)
          (disk_kept p x (λ i. let t' = page_of p i in cc) e)

  -- The step of `flush_all()`: a frame is written back if it is dirty.
  module _ (b : BufferManager D) (f : ℕ) (v : IsValid b) (l : f < length b.pool) where
    flush_if_dirty-cases :
        (P : BufferManager D → Type 0)
        → P b
        → ((frame b f).dirty ≢ 0 → P (flush dm b f))
        → P (flush_if_dirty dm b f)
    unfolding flush_if_dirty
    flush_if_dirty-cases P skip go = elim (Bool-cases ((frame b f).dirty == 0)) [
      | inl z ↦ rw z skip
      | inr d ↦ rw d (go (==→ne _ _ d))
    ]

    pub flush_if_dirty-IsValid : IsValid (flush_if_dirty dm b f)
    flush_if_dirty-IsValid = flush_if_dirty-cases IsValid v (flush-IsValid b f v l)

    pub flush_if_dirty-Preserves : Preserves Stores b (flush_if_dirty dm b f)
    flush_if_dirty-Preserves =
        flush_if_dirty-cases (Preserves Stores b) (λ p x h. h) (flush-Preserves b f v l)

    -- It is clean then, and nothing but its dirty flag and the disk has changed.
    pub flush_if_dirty_lem :
        ((frame (flush_if_dirty dm b f) f).dirty ≡ 0)
        × ((flush_if_dirty dm b f).page_table ≡ b.page_table)
        × ((flush_if_dirty dm b f).free_list ≡ b.free_list)
        × (length (flush_if_dirty dm b f).pool ≡ length b.pool)
        × ((g : ℕ) → (frame (flush_if_dirty dm b f) g).pin_count ≡ (frame b g).pin_count)
    unfolding flush_if_dirty
    flush_if_dirty_lem = elim (Bool-cases ((frame b f).dirty == 0)) [
      | inl z ↦ rw z (==→eq _ _ z, refl, refl, refl, λ g. refl)
      | inr d ↦
          let n = ==→ne _ _ d in
          let names = flush-SameNames b f v l n in
          rw d (
            flush_dirty b f v l n,
            names.page_table,
            names.free_list,
            names.size,
            flush_pins b f v l n,
          )
    ]

    pub flush_if_dirty_ne : (g : ℕ) → f ≢ g → frame (flush_if_dirty dm b f) g ≡ frame b g
    unfolding flush_if_dirty
    flush_if_dirty_ne g ne = elim (Bool-cases ((frame b f).dirty == 0)) [
      | inl z ↦ rw z
      | inr d ↦ rw d (flush_ne b f v l (==→ne _ _ d) g ne)
    ]

    -- The disk gives out the page ids that it did.
    pub flush_if_dirty-Akin : Akin k b (flush_if_dirty dm b f)
    unfolding flush
    flush_if_dirty-Akin =
        flush_if_dirty-cases (Akin k b) (record { size = refl; ids = refl })
          (λ d. record {
            size = length-set b.pool f _;
            ids = k.ids-write b.disk (frame b f).page_id (frame b f).bytes;
          })
