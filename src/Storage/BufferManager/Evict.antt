-- ===== src/Storage/BufferManager/Evict.antt =====
-- A frame that changes pages: `evict()` empties it, and `read()` fills it.
use cpp_relational_db.Base.{
  refl, ℕ, ◌<◌, ◌≡◌, ◌≢◌, ◌⊎◌, inl, inr, refl, sym, ap, ◌∙◌, subst, none, some, false, arith,
  length, has, Option-cases, eq_or_ne, length-set,
}
use cpp_relational_db.Storage.Bytes.{Page, SameBytes}
use cpp_relational_db.Storage.Disk.{IDiskManager, KeepsPages, IsPageId, invalid_page_id}
use cpp_relational_db.Storage.BufferManager.{Frame, BufferManager, frame, flush_if_dirty, unmap}
use cpp_relational_db.Storage.BufferManager.Frames.{frame-set_frame_self, frame-set_frame_ne}
use cpp_relational_db.Storage.BufferManager.Invariant.{
  Akin, Akin-trans, IsValid, cached, on_disk, Preserves,
}
use cpp_relational_db.Storage.BufferManager.Flush.{
  flush_if_dirty-Akin, flush_if_dirty_lem, flush_if_dirty-IsValid, flush_if_dirty-Preserves,
}

-- A frame of the pool that holds no page and is not on the free list.
pub record IsVacant {D : Type 0} (b : BufferManager D) (f : ℕ) : Type 0 where
  pub within : f < length b.pool
  pub no_page : (frame b f).page_id ≡ invalid_page_id
  pub taken : has b.free_list f ≡ false

pub invalid-IsPageId : (p : ℕ) → p ≡ invalid_page_id → ¬ IsPageId p
invalid-IsPageId p e h = omega arith

module _ {D : Type 0} (dm : IDiskManager D) {Stores : D → ℕ → Page → Type 0}
    (k : KeepsPages dm Stores) where
  -- A clean frame leaves the page table.
  module _ (b : BufferManager D) (f : ℕ) (v : IsValid b) (l : f < length b.pool)
      (z : (frame b f).dirty ≡ 0) where
    abbrev page : ℕ
    page = (frame b f).page_id

    abbrev emptied : Frame
    emptied = record (frame b f) { page_id = invalid_page_id; dirty = 0 }

    unmap_self : frame (unmap dm b f) f ≡ emptied
    unfolding unmap
    unmap_self = frame-set_frame_self b f emptied l

    unmap_ne : (g : ℕ) → f ≢ g → frame (unmap dm b f) g ≡ frame b g
    unfolding unmap
    unmap_ne g ne = frame-set_frame_ne b f emptied g ne

    unmap_size : length (unmap dm b f).pool ≡ length b.pool
    unfolding unmap
    unmap_size = length-set b.pool f _

    -- The page table forgets the frame, and nothing else.
    unmap_table_none : (p : ℕ) → b.page_table p ≡ some f → (unmap dm b f).page_table p ≡ none
    unfolding unmap
    unmap_table_none p t = let (_, i, q) = v.table p f t in ground arith

    unmap_table_ne :
        (p : ℕ) → b.page_table p ≢ some f → (unmap dm b f).page_table p ≡ b.page_table p
    unfolding unmap
    unmap_table_ne p ne = elim (v.ids f l) [
      | inl e ↦ ground arith
      | inr q ↦
          let t = v.mapped f l q in
          elim (eq_or_ne p page) [
            | inl same ↦ absurd (ne (subst (λ r. b.page_table r ≡ some f) (sym same) t))
            | inr other ↦ ground arith
          ]
    ]

    -- The mappings that are left.
    data Left (p g : ℕ) : Type 0 where
      left : b.page_table p ≡ some g → f ≢ g → Left p g

    unmap_table-Left : (p g : ℕ) → (unmap dm b f).page_table p ≡ some g → Left p g
    unmap_table-Left p g e = elim (Option-cases (b.page_table p)) [
      | inl none_there ↦ let same = unmap_table_ne p (λ t. cc) in cc
      | inr (h, there) ↦ elim (eq_or_ne f h) [
        | inl own ↦ let gone = unmap_table_none p (there ∙ ap some (sym own)) in cc
        | inr other ↦
            let same = unmap_table_ne p (λ t. other (cc)) in
            let t : b.page_table p ≡ some g = sym same ∙ e in left t (λ i. other (cc))
      ]
    ]

    pub unmap-IsValid : IsValid (unmap dm b f)
    unmap-IsValid = record {
      table = λ p g e. elim (unmap_table-Left p g e) [
        | left t ne ↦
            let (m, i, q) = v.table p g t in
            (rw unmap_size m, ap (λ fr. fr.page_id) (unmap_ne g ne) ∙ i, q)
      ];
      mapped = λ g m q. elim (eq_or_ne f g) [
        | inl same ↦ absurd (invalid-IsPageId _ (vacated g same) q)
        | inr ne ↦ kept_mapping g ne (rw unmap_size at m) q
      ];
      ids = λ g m. elim (eq_or_ne f g) [
        | inl same ↦ inl (vacated g same)
        | inr ne ↦
            subst (λ fr. (fr.page_id ≡ invalid_page_id) ⊎ IsPageId fr.page_id) (sym (unmap_ne g ne))
              (v.ids g (rw unmap_size at m))
      ];
      named = λ g m d. elim (eq_or_ne f g) [
        | inl same ↦ absurd (
            d (
              subst (λ h. (frame (unmap dm b f) h).dirty ≡ 0) same
                (ap (λ fr. fr.dirty) unmap_self)))
        | inr ne ↦
            subst (λ fr. IsPageId fr.page_id) (sym (unmap_ne g ne))
              (v.named g (rw unmap_size at m) (λ e. d (ap (λ fr. fr.dirty) (unmap_ne g ne) ∙ e)))
      ];
      free = λ g h.
          let (m, i) = v.free g (rw listed at h) in
          (
            rw unmap_size m,
            elim (eq_or_ne f g) [
              | inl same ↦ vacated g same
              | inr ne ↦ ap (λ fr. fr.page_id) (unmap_ne g ne) ∙ i
            ],
          );
      nodup = rw listed v.nodup;
      clock = rw policy v.clock;
      clock_size = rw (policy, unmap_size) v.clock_size;
      clock_frames = λ i m. rw policy (v.clock_frames i (rw unmap_size at m));
    }
      where
        listed : (unmap dm b f).free_list ≡ b.free_list
        listed = unfold unmap in refl

        policy : (unmap dm b f).policy ≡ b.policy
        policy = unfold unmap in refl

        vacated : (g : ℕ) → f ≡ g → (frame (unmap dm b f) g).page_id ≡ invalid_page_id
        vacated g same =
            subst (λ h. (frame (unmap dm b f) h).page_id ≡ invalid_page_id) same
              (ap (λ fr. fr.page_id) unmap_self)

        kept_mapping :
            (g : ℕ)
            → f ≢ g
            → g < length b.pool
            → IsPageId (frame (unmap dm b f) g).page_id
            → (unmap dm b f).page_table (frame (unmap dm b f) g).page_id ≡ some g
        kept_mapping g ne m q =
            let t = v.mapped g m (subst (λ fr. IsPageId fr.page_id) (unmap_ne g ne) q) in
            subst (λ fr. (unmap dm b f).page_table fr.page_id ≡ some g) (sym (unmap_ne g ne))
              (unmap_table_ne (frame b g).page_id (λ t'. ne (cc)) ∙ t)

    pub unmap-Preserves : Preserves Stores b (unmap dm b f)
    unmap-Preserves p x (cached g t e w) = elim (eq_or_ne f g) [
      | inl same ↦ on_disk (unmap_table_none p (t ∙ ap some (sym same))) (kept w same)
      | inr ne ↦
          cached g (unmap_table_ne p (λ t'. ne (cc)) ∙ t)
            (subst (λ fr. SameBytes fr.bytes x) (sym (unmap_ne g ne)) e)
            (subst (λ fr. (fr.dirty ≢ 0) ⊎ Stores (unmap dm b f).disk p x) (sym (unmap_ne g ne))
              (disk w))
    ]
      where
        kept : ((frame b g).dirty ≢ 0) ⊎ Stores b.disk p x → f ≡ g → Stores (unmap dm b f).disk p x
        kept (inl d) same = absurd (d (subst (λ h. (frame b h).dirty ≡ 0) same z))
        kept (inr s) same = unfold unmap in s

        disk :
            ((frame b g).dirty ≢ 0) ⊎ Stores b.disk p x
            → ((frame b g).dirty ≢ 0) ⊎ Stores (unmap dm b f).disk p x
        disk (inl d) = inl d
        disk (inr s) = inr (unfold unmap in s)
    unmap-Preserves p x (on_disk t e) =
        on_disk (unmap_table_ne p (λ t'. cc) ∙ t) (unfold unmap in e)

    pub unmap-IsVacant : has b.free_list f ≡ false → IsVacant (unmap dm b f) f
    unmap-IsVacant h = record {
      within = rw unmap_size l;
      no_page = ap (λ fr. fr.page_id) unmap_self;
      taken = unfold unmap in h;
    }

    unmap_pins : (g : ℕ) → (frame (unmap dm b f) g).pin_count ≡ (frame b g).pin_count
    unmap_pins g = elim (eq_or_ne f g) [
      | inl same ↦
          subst (λ h. (frame (unmap dm b f) h).pin_count ≡ (frame b h).pin_count) same
            (ap (λ fr. fr.pin_count) unmap_self)
      | inr ne ↦ ap (λ fr. fr.pin_count) (unmap_ne g ne)
    ]

    unmap_absent : (p : ℕ) → b.page_table p ≡ none → (unmap dm b f).page_table p ≡ none
    unmap_absent p t = unmap_table_ne p (λ t'. cc) ∙ t

    unmap-Akin : Akin k b (unmap dm b f)
    unmap-Akin = record { size = unmap_size; ids = unfold unmap in refl }

  -- What `evict` promises of the frame that it returns.
  pub record Evicts (b : BufferManager D) (f : ℕ) (b' : BufferManager D) : Type 0 where
    pub valid : IsValid b'
    pub kept : Preserves Stores b b'
    pub vacant : IsVacant b' f
    pub absent : (p : ℕ) → b.page_table p ≡ none → b'.page_table p ≡ none
    pub pins : (g : ℕ) → (frame b' g).pin_count ≡ (frame b g).pin_count
    pub akin : Akin k b b'

  -- A frame of the pool is written back if it is dirty, and leaves the page table.
  pub emptied-Evicts :
      (b : BufferManager D) (f : ℕ)
      → IsValid b
      → f < length b.pool
      → has b.free_list f ≡ false
      → Evicts b f (unmap dm (flush_if_dirty dm b f) f)
  emptied-Evicts b f v l h =
      let (z, table, listed, size, pins) = flush_if_dirty_lem dm k b f v l in
      let w = flush_if_dirty-IsValid dm k b f v l in
      let m : f < length (flush_if_dirty dm b f).pool = rw size l in
      record {
        valid = unmap-IsValid _ f w m z;
        kept = λ p x c. unmap-Preserves _ f w m z p x (flush_if_dirty-Preserves dm k b f v l p x c);
        vacant = unmap-IsVacant _ f w m z (rw listed h);
        absent = λ p t. unmap_absent _ f w m z p (rw table t);
        pins = λ g. unmap_pins _ f w m z g ∙ pins g;
        akin = Akin-trans k (flush_if_dirty-Akin dm k b f v l) (unmap-Akin _ f w m z);
      }
