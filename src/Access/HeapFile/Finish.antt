-- ===== src/Access/HeapFile/Finish.antt =====
-- The end of `HeapFile::Update` and `HeapFile::Delete`: a page is written back through its frame.
use cpp_relational_db.Base.{
  ◌⊎◌, sym, ◌∙◌, subst, refl, ap, Bool, true, ◌&&◌, ◌==◌, ltb, Bool-cases, if◌then◌else◌,
  set-get_or, get_or-set, ==→eq, ◌≢◌, ℕ, ◌+◌, ◌≡◌, inl, inr, some, false, arith, length, length-set,
}
use cpp_relational_db.Storage.Bytes.{Page, SameBytes}
use cpp_relational_db.Storage.Disk.{IDiskManager, KeepsPages}
use cpp_relational_db.Storage.SlottedPage.{SlottedPage}
use cpp_relational_db.Storage.BufferManager.{
  BufferManager, returned, frame, not_positive, Frame, set_frame, write_data, mark_dirty,
}
use cpp_relational_db.Storage.BufferManager.Invariant.{
  IsValid, Akin, Akin-trans, SameCache-Akin, Holds, SameCache-IsValid, SameCache-Preserves, cached,
  on_disk,
}
use cpp_relational_db.Storage.BufferManager.Clients.{release_pinned, write_lem}
use cpp_relational_db.Access.HeapFile.{finish}

left_true : (a c : Bool) → (a && c) ≡ true → a ≡ true
left_true a c h = ground arith

set_frame_pins :
    {D : Type 0} (b : BufferManager D) (f : ℕ) (fr : Frame)
    → fr.pin_count ≡ (frame b f).pin_count
    → (g : ℕ) → (frame (set_frame b f fr) g).pin_count ≡ (frame b g).pin_count
set_frame_pins b f fr e g =
    rw
      (get_or-set b.pool f g fr
        (record { page_id = 4294967295; pin_count = 0; dirty = 0; bytes = λ _. 0 }))
      (elim (Bool-cases ((g == f) && ltb f (length b.pool))) [
        | inl here ↦ rw here (
            let same : g ≡ f = ==→eq g f (left_true _ _ here) in
            e ∙ ap (λ i. (frame b i).pin_count) (sym same))
        | inr apart ↦ rw apart
      ])

module _ {D : Type 0} (dm : IDiskManager D) {Stores : D → ℕ → Page → Type 0}
    (k : KeepsPages dm Stores) (b : BufferManager D) (pid f : ℕ) (v : IsValid b)
    (t : b.page_table pid ≡ some f) where
  -- `c` is `b` with the contents `y` in the page, which is in the frame `f`.
  pub record Wrote (y : Page) (c : BufferManager D) : Type 0 where
    pub valid : IsValid c
    pub own : Holds Stores c pid y
    pub others : (p : ℕ) (z : Page) → p ≢ pid → Holds Stores b p z → Holds Stores c p z
    pub there : c.page_table pid ≡ some f
    pub pins : (g : ℕ) → (frame c g).pin_count ≡ (frame b g).pin_count

  pub write-Wrote : (y : Page) → Wrote y (mark_dirty (write_data b f y) f)
  unfolding mark_dirty write_data
  write-Wrote y =
      let (valid, own, others) = write_lem dm k b pid f y v t in
      record {
        valid = unfold mark_dirty write_data in valid;
        own = unfold mark_dirty write_data in own;
        others = unfold mark_dirty write_data in others;
        there = t;
        pins = λ g. set_frame_pins (write_data b f y) f _ refl g ∙ set_frame_pins b f _ refl g;
      }

  -- The page's own bytes, written back by an operation that failed.
  in_frame :
      (x : Page)
      → SameBytes (frame b f).bytes x
      → Holds Stores b pid x
      → Holds Stores b pid (frame b f).bytes
  in_frame x s (cached g t' s' w) =
      let same : g ≡ f = let e = sym t' ∙ t in cc in
      cached f t (λ i l. refl)
        (elim (subst (λ h. ((frame b h).dirty ≢ 0) ⊎ Stores b.disk pid x) same w) [
          | inl d ↦ inl d
          | inr e ↦ inr (k.same b.disk pid x (frame b f).bytes (λ i l. sym (s i l)) e)
        ])
  in_frame x s (on_disk t' e) = cc

  same-Wrote :
      (x : Page)
      → Holds Stores b pid x
      → SameBytes (frame b f).bytes x
      → Wrote (frame b f).bytes (write_data b f (frame b f).bytes)
  unfolding write_data
  same-Wrote x h s =
      let same : b ≡ write_data b f (frame b f).bytes =
        ap (λ p. record b { pool = p })
          (sym (
            set-get_or b.pool f
              (record { page_id = 4294967295; pin_count = 0; dirty = 0; bytes = λ _. 0 }))) in
      subst (Wrote (frame b f).bytes) same (record {
        valid = v;
        own = in_frame x s h;
        others = λ p z ne held. held;
        there = t;
        pins = λ g. refl;
      })

  abbrev finished : SlottedPage → Bool → BufferManager D
  finished sp res = if res then mark_dirty (write_data b f sp.bytes) f else write_data b f sp.bytes

  finished-Akin : (sp : SlottedPage) (res : Bool) → Akin k b (finished sp res)
  unfolding mark_dirty write_data
  finished-Akin sp res = elim (Bool-cases res) [
    | inl is ↦ rw is (record {
      size = length-set (write_data b f sp.bytes).pool f _ ∙ length-set b.pool f _;
      ids = refl;
    })
    | inr isnt ↦ rw isnt (record { size = length-set b.pool f _; ids = refl })
  ]

  -- The end of `Update` and `Delete`, when a failed operation left the page as it was.
  pub finish_lem :
      (sp : SlottedPage) (res : Bool) (x : Page)
      → (res ≡ false → sp.bytes ≡ (frame b f).bytes)
      → Holds Stores b pid x
      → SameBytes (frame b f).bytes x
      → not_positive (frame b f).pin_count ≡ false
      → (b' : BufferManager D) × (finish dm b pid f (sp, res) ≡ returned res b')
        × IsValid b'
        × Holds Stores b' pid sp.bytes
        × ((p : ℕ) (z : Page) → p ≢ pid → Holds Stores b p z → Holds Stores b' p z)
        × ((frame b' f).pin_count + 1 ≡ (frame b f).pin_count)
        × ((g : ℕ) → f ≢ g → (frame b' g).pin_count ≡ (frame b g).pin_count)
        × Akin k b b'
  unfolding finish
  finish_lem sp res x failed h s positive =
      let (b', e, same, less, others) =
        release_pinned dm k (finished sp res) pid f w.valid w.there (rw (w.pins f) positive) in
      (
        b',
        rw (e),
        SameCache-IsValid same w.valid,
        SameCache-Preserves same Stores pid sp.bytes w.own,
        λ p z ne held. SameCache-Preserves same Stores p z (w.others p z ne held),
        less ∙ w.pins f,
        λ g ne. others g ne ∙ w.pins g,
        Akin-trans k (finished-Akin sp res) (SameCache-Akin k same),
      )
    where
      w : Wrote sp.bytes (finished sp res)
      w = elim (Bool-cases res) [
        | inl is ↦ rw is (write-Wrote sp.bytes)
        | inr isnt ↦ rw (isnt, failed isnt) (same-Wrote x h s)
      ]
