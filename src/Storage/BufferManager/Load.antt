-- ===== src/Storage/BufferManager/Load.antt =====
-- `read()` and `load`: a vacant frame takes a page.
use cpp_relational_db.Base.{
  ℕ, ◌+◌, ◌%◌, ◌^◌, ◌<◌, ◌≡◌, ◌≢◌, ◌⊎◌, inl, inr, refl, sym, ap, ◌∙◌, subst, none, some, true,
  false, arith, length, has, eq_or_ne, length-set,
}
use cpp_relational_db.Storage.Bytes.{Page, SameBytes}
use cpp_relational_db.Storage.Disk.{IDiskManager, KeepsPages, IsPageId, invalid_page_id}
use cpp_relational_db.Storage.ClockPolicy.{record_load}
use cpp_relational_db.Storage.ClockPolicy.Valid.{SameFrames, record_load-IsValid}
use cpp_relational_db.Storage.BufferManager.{Frame, BufferManager, returned, frame, pin, read, load}
use cpp_relational_db.Storage.BufferManager.Frames.{frame-set_frame_self, frame-set_frame_ne}
use cpp_relational_db.Storage.BufferManager.Invariant.{
  Akin, Akin-trans, SameCache-Akin, IsValid, Holds, cached, on_disk, Preserves, SameCache,
  SameCache-IsValid, SameCache-Preserves,
}
use cpp_relational_db.Storage.BufferManager.Pins.{pin_self, pin_ne, pin-SameCache, policy-SameCache}
use cpp_relational_db.Storage.BufferManager.Evict.{IsVacant, invalid-IsPageId}

module _ {D : Type 0} (dm : IDiskManager D) {Stores : D → ℕ → Page → Type 0}
    (k : KeepsPages dm Stores) where
  module _ (b : BufferManager D) (pid f : ℕ) (v : IsValid b) (a : IsVacant b f)
      (miss : b.page_table pid ≡ none) (q : IsPageId pid) where
    abbrev filled : Frame
    filled = record (frame b f) {
      bytes = dm.read_page b.disk pid (frame b f).bytes;
      page_id = pid;
      dirty = 0;
    }

    read_self : frame (read dm b pid f) f ≡ filled
    unfolding read
    read_self = frame-set_frame_self b f filled a.within

    read_ne : (g : ℕ) → f ≢ g → frame (read dm b pid f) g ≡ frame b g
    unfolding read
    read_ne g ne = frame-set_frame_ne b f filled g ne

    read_size : length (read dm b pid f).pool ≡ length b.pool
    unfolding read
    read_size = length-set b.pool f _

    read_table_self : (read dm b pid f).page_table pid ≡ some f
    unfolding read
    read_table_self = ground arith

    read_table_ne : (p : ℕ) → p ≢ pid → (read dm b pid f).page_table p ≡ b.page_table p
    unfolding read
    read_table_ne p ne = ground arith

    -- No page was in the frame.
    not_vacant : (p g : ℕ) → b.page_table p ≡ some g → f ≢ g
    not_vacant p g t e =
        let (_, i, r) = v.table p g t in
        invalid-IsPageId p (sym i ∙ subst (λ h. (frame b h).page_id ≡ invalid_page_id) e a.no_page)
          r

    read_table-cases :
        (P : ℕ → ℕ → Type 0) (p g : ℕ)
        → (read dm b pid f).page_table p ≡ some g
        → P pid f
        → (p ≢ pid → b.page_table p ≡ some g → f ≢ g → P p g)
        → P p g
    read_table-cases P p g e new old = elim (eq_or_ne p pid) [
      | inl same ↦
          let here : some f ≡ some g =
            sym read_table_self ∙ ap (read dm b pid f).page_table (sym same) ∙ e in
          let at : f ≡ g = cc in subst (λ h. P h g) (sym same) (subst (P pid) at new)
      | inr ne ↦ let t = sym (read_table_ne p ne) ∙ e in old ne t (not_vacant p g t)
    ]

    pub read-IsValid : IsValid (read dm b pid f)
    read-IsValid = record {
      table = λ p g e.
          read_table-cases
            (λ p g.
              (g < length (read dm b pid f).pool)
              × ((frame (read dm b pid f) g).page_id ≡ p)
              × IsPageId p)
            p g e (rw read_size a.within, ap (λ fr. fr.page_id) read_self, q)
            (λ _ t ne.
              let (m, i, r) = v.table p g t in
              (rw read_size m, ap (λ fr. fr.page_id) (read_ne g ne) ∙ i, r));
      mapped = λ g m r. elim (eq_or_ne f g) [
        | inl same ↦
            subst (λ h. (read dm b pid f).page_table (frame (read dm b pid f) h).page_id ≡ some h)
              same (ap (λ fr. (read dm b pid f).page_table fr.page_id) read_self ∙ read_table_self)
        | inr ne ↦ kept_mapping g ne (rw read_size at m) r
      ];
      ids = λ g m. elim (eq_or_ne f g) [
        | inl same ↦ inr (
            subst (λ h. IsPageId (frame (read dm b pid f) h).page_id) same
              (subst (λ fr. IsPageId fr.page_id) (sym read_self) q))
        | inr ne ↦
            subst (λ fr. (fr.page_id ≡ invalid_page_id) ⊎ IsPageId fr.page_id) (sym (read_ne g ne))
              (v.ids g (rw read_size at m))
      ];
      named = λ g m d. elim (eq_or_ne f g) [
        | inl same ↦ absurd (
            d (
              subst (λ h. (frame (read dm b pid f) h).dirty ≡ 0) same
                (ap (λ fr. fr.dirty) read_self)))
        | inr ne ↦
            subst (λ fr. IsPageId fr.page_id) (sym (read_ne g ne))
              (v.named g (rw read_size at m) (λ e. d (ap (λ fr. fr.dirty) (read_ne g ne) ∙ e)))
      ];
      free = λ g h.
          let h' : has b.free_list g ≡ true = rw listed at h in
          let (m, i) = v.free g h' in
          (
            rw read_size m,
            ap (λ fr. fr.page_id)
                  (read_ne g (λ e. false_true (sym a.taken ∙ ap (has b.free_list) e ∙ h')))
                ∙ i,
          );
      nodup = rw listed v.nodup;
      clock = rw policy v.clock;
      clock_size = rw (policy, read_size) v.clock_size;
      clock_frames = λ i m. rw policy (v.clock_frames i (rw read_size at m));
    }
      where
        listed : (read dm b pid f).free_list ≡ b.free_list
        listed = unfold read in refl

        policy : (read dm b pid f).policy ≡ b.policy
        policy = unfold read in refl

        false_true : ¬ (false ≡ true)
        false_true e = cc

        kept_mapping :
            (g : ℕ)
            → f ≢ g
            → g < length b.pool
            → IsPageId (frame (read dm b pid f) g).page_id
            → (read dm b pid f).page_table (frame (read dm b pid f) g).page_id ≡ some g
        kept_mapping g ne m r =
            let t = v.mapped g m (subst (λ fr. IsPageId fr.page_id) (read_ne g ne) r) in
            subst (λ fr. (read dm b pid f).page_table fr.page_id ≡ some g) (sym (read_ne g ne))
              (read_table_ne (frame b g).page_id (λ e. let t' = ap b.page_table e in cc) ∙ t)

    -- The frame shows what the disk has.
    loaded : (x : Page) → Stores b.disk pid x → Holds Stores (read dm b pid f) pid x
    loaded x e =
        cached f read_table_self
          (subst (λ fr. SameBytes fr.bytes x) (sym read_self)
            (k.reads b.disk pid x (frame b f).bytes e))
          (inr (unfold read in e))

    pub read-Preserves : Preserves Stores b (read dm b pid f)
    read-Preserves p x (cached g t e w) =
        let ne = not_vacant p g t in
        cached g (read_table_ne p (λ i. let t' = ap b.page_table i in cc) ∙ t)
          (subst (λ fr. SameBytes fr.bytes x) (sym (read_ne g ne)) e)
          (subst (λ fr. (fr.dirty ≢ 0) ⊎ Stores (read dm b pid f).disk p x) (sym (read_ne g ne))
            (unfold read in w))
    read-Preserves p x (on_disk t e) = elim (eq_or_ne p pid) [
      | inl same ↦
          subst (λ r. Holds Stores (read dm b pid f) r x) (sym same)
            (loaded x (subst (λ r. Stores b.disk r x) same e))
      | inr ne ↦ on_disk (read_table_ne p ne ∙ t) (unfold read in e)
    ]

    read_pins : (g : ℕ) → (frame (read dm b pid f) g).pin_count ≡ (frame b g).pin_count
    read_pins g = elim (eq_or_ne f g) [
      | inl same ↦
          subst (λ h. (frame (read dm b pid f) h).pin_count ≡ (frame b h).pin_count) same
            (ap (λ fr. fr.pin_count) read_self)
      | inr ne ↦ ap (λ fr. fr.pin_count) (read_ne g ne)
    ]

    accessed : SameFrames (read dm b pid f).policy (record_load (read dm b pid f).policy f)
    accessed = unfold read in (record_load-IsValid b.policy f v.clock).1

    -- After the event of the policy.
    recorded : BufferManager D
    recorded = record (read dm b pid f) { policy = record_load (read dm b pid f).policy f }

    recorded-SameCache : SameCache (read dm b pid f) recorded
    unfolding recorded
    recorded-SameCache =
        policy-SameCache (read dm b pid f) _
          (λ w. (record_load-IsValid (read dm b pid f).policy f w).0) accessed

    recorded_lem :
        IsValid recorded
        × Preserves Stores b recorded
        × (recorded.page_table pid ≡ some f)
        × ((g : ℕ) → (frame recorded g).pin_count ≡ (frame b g).pin_count)
        × Akin k b recorded
    unfolding recorded
    recorded_lem = (
      SameCache-IsValid recorded-SameCache read-IsValid,
      λ p x h. SameCache-Preserves recorded-SameCache Stores p x (read-Preserves p x h),
      read_table_self,
      read_pins,
      record { size = read_size; ids = unfold read in refl },
    )

  -- What `request` promises: a valid pool in which the frame has the page, every page has the
  -- contents it had, and one more pin is on that frame and on no other.
  pub record Serves (b : BufferManager D) (pid f : ℕ) (b' : BufferManager D) : Type 0 where
    pub valid : IsValid b'
    pub kept : Preserves Stores b b'
    pub there : b'.page_table pid ≡ some f
    pub pinned : (frame b' f).pin_count ≡ ((frame b f).pin_count + 1) % 2 ^ 32
    pub others : (g : ℕ) → f ≢ g → (frame b' g).pin_count ≡ (frame b g).pin_count
    pub akin : Akin k b b'

  module _ (b : BufferManager D) (pid f : ℕ) (v : IsValid b) (a : IsVacant b f)
      (miss : b.page_table pid ≡ none) (q : IsPageId pid) where
    still-IsVacant : IsVacant (pin b f) f
    still-IsVacant = record {
      within = rw (pin-SameCache b f).size a.within;
      no_page = (pin-SameCache b f).id f ∙ a.no_page;
      taken = rw (pin-SameCache b f).free_list a.taken;
    }

    pub load-Serves : (b' : BufferManager D) × (load dm b pid f ≡ returned f b') × Serves b pid f b'
    unfolding load recorded
    load-Serves =
        let w = SameCache-IsValid (pin-SameCache b f) v in
        let m : (pin b f).page_table pid ≡ none = rw (pin-SameCache b f).page_table miss in
        let (valid, kept, there, pins, akin) = recorded_lem (pin b f) pid f w still-IsVacant m q in
        (
          _,
          refl,
          record {
            valid = valid;
            kept = λ p x h. kept p x (SameCache-Preserves (pin-SameCache b f) Stores p x h);
            there = there;
            pinned = pins f ∙ pin_self b f a.within;
            others = λ g ne. pins g ∙ pin_ne b f g ne;
            akin = Akin-trans k (SameCache-Akin k (pin-SameCache b f)) akin;
          },
        )
