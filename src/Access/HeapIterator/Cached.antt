-- ===== src/Access/HeapIterator/Cached.antt =====
-- A chain whose pages are all in the pool: visits and `Advance` take no frame for another page.
use cpp_relational_db.Base.{
  ne→==, ◌==◌, zero, suc, ℕ, ◌≡◌, arith, Bool, inl, inr, refl, sym, ap, ◌∙◌, subst, some, List, [],
  ◌∷◌, true, false,
}
use cpp_relational_db.Storage.Bytes.{Page}
use cpp_relational_db.Storage.Disk.{IDiskManager, KeepsPages, invalid_page_id}
use cpp_relational_db.Storage.ClockPolicy.{record_access}
use cpp_relational_db.Storage.ClockPolicy.Valid.{record_access-IsValid}
use cpp_relational_db.Storage.SlottedPage.{from_buffer, span_bytes}
use cpp_relational_db.Storage.BufferManager.{
  BufferManager, Outcome, returned, frame, pin, request, release,
}
use cpp_relational_db.Storage.BufferManager.Invariant.{IsValid, SameCache, SameCache-IsValid}
use cpp_relational_db.Storage.BufferManager.Pins.{
  SameCache-trans, pin-SameCache, policy-SameCache, SameFrames-refl,
}
use cpp_relational_db.Storage.BufferManager.Release.{
  Released, missing, unpinned, pinned, release-Released,
}
use cpp_relational_db.Access.HeapFile.{
  HeapFile, Record, shown, next_page_id, size_of_heap_page_header,
}
use cpp_relational_db.Access.HeapFile.Visit.{Ready, Settled-Ready, request-Opened, release_read}
use cpp_relational_db.Access.HeapFile.Chain.{Entry, head_id, Chain, Chain-Preserves}
use cpp_relational_db.Access.HeapFile.View.{Within}
use cpp_relational_db.Access.HeapIterator.{
  HeapIterator, end_of, begin, heap_iterator, leave_page, seek, advance,
}
use cpp_relational_db.Access.HeapIterator.Advance.{at_slot, seek_turn, stop, shape}

-- Every page of the chain is in a frame.
abbrev pub InPool : {D : Type 0} → BufferManager D → List Entry → Type 0
InPool b es = (p : ℕ) → Within p es → (f : ℕ) × (b.page_table p ≡ some f)

pub InPool-SameCache :
    {D : Type 0} {b b' : BufferManager D} (es : List Entry)
    → SameCache b b'
    → InPool b es
    → InPool b' es
InPool-SameCache es s h = λ p w. let (f, t) = h p w in (f, rw s.page_table t)

-- What a record shows while the frames' data stay.
pub shown-SameCache :
    {D : Type 0} {b b' : BufferManager D} (r : Record) → SameCache b b' → shown b' r ≡ shown b r
shown-SameCache r s =
    ap (λ m. span_bytes (from_buffer m size_of_heap_page_header) r.span) (s.bytes r.frame)

pub release_still :
    {D : Type 0} (b b' : BufferManager D) (p : ℕ)
    → IsValid b
    → release b p ≡ returned tt b'
    → SameCache b b'
release_still {D} b b' p v e = go _ e (release-Released b p v)
  where
    go :
        (o : Outcome (BufferManager D) (Unit {0}))
        → o ≡ returned tt b'
        → Released b p o
        → SameCache b b'
    go o e' (missing t) = cc
    go o e' (unpinned f t l) = cc
    go o e' (pinned f c t pos small v' same less others policy) =
        let is : c ≡ b' = cc in subst (SameCache b) is same

module _ {D : Type 0} (dm : IDiskManager D) {Stores : D → ℕ → Page → Type 0}
    (k : KeepsPages dm Stores) where
  request_still :
      (b b₁ : BufferManager D) (p f g : ℕ)
      → IsValid b
      → b.page_table p ≡ some f
      → request dm b p ≡ returned g b₁
      → SameCache b b₁
  unfolding request
  request_still b b₁ p f g v t e =
      let b' : BufferManager D = pin b f in
      let hit : BufferManager D = record b' { policy = record_access b'.policy f } in
      let done : request dm b p ≡ returned f hit = rw (t, request) refl in
      let is : hit ≡ b₁ = cc in
      subst (SameCache b) is (
        SameCache-trans (pin-SameCache b f) (
          policy-SameCache b' (record_access b'.policy f)
            (λ w. (record_access-IsValid b'.policy f w).0)
            (unfold pin in (record_access-IsValid b.policy f v.clock).1)))

  -- A visit to a page that is in a frame.
  pub visit_still :
      (b b₁ b₂ : BufferManager D) (p f g : ℕ)
      → IsValid b
      → b.page_table p ≡ some f
      → request dm b p ≡ returned g b₁
      → release b₁ p ≡ returned tt b₂
      → SameCache b b₂
  visit_still b b₁ b₂ p f g v t e e' =
      let s = request_still b b₁ p f g v t e in
      SameCache-trans s (release_still b₁ b₂ p (SameCache-IsValid s v) e')

  -- The end of a turn of `Advance`.
  leave_still :
      (turns heap : ℕ) (e : Entry) (es : List Entry) (s f : ℕ) (b b₁ b₂ b' : BufferManager D)
      (it : HeapIterator) (p : ℕ × Bool)
      → release b₁ e.id ≡ returned tt b₂
      → next_page_id (frame b₁ f).bytes ≡ head_id es invalid_page_id
      → SameCache b b₂
      → (seek dm turns (at_slot dm k heap es 0) b₂ ≡ returned (some tt) (it, b') → SameCache b₂ b')
      → leave_page dm (seek dm turns) (at_slot dm k heap (e ∷ es) s) b₁ f p
        ≡ returned (some tt) (it, b')
      → SameCache b b'
  unfolding leave_page
  leave_still turns heap e es s f b b₁ b₂ b' it (at, true) e₂ linked same rest eq =
      let here : HeapIterator = record { heap = heap; page = e.id; slot = at; has_next = true } in
      let done : returned (some tt) (here, b₂) ≡ returned (some tt) (it, b') = rw e₂ at eq in
      let is : b₂ ≡ b' = cc in subst (SameCache b) is same
  leave_still turns heap e es s f b b₁ b₂ b' it (at, false) e₂ linked same rest eq =
      let on : seek dm turns (at_slot dm k heap es 0) b₂ ≡ returned (some tt) (it, b') =
        rw (e₂, linked) at eq in
      SameCache-trans same (rest on)

  pub seek_still :
      (turns : ℕ) (b : BufferManager D) (heap : ℕ) (es : List Entry) (s : ℕ)
      → Ready b
      → Chain k b es invalid_page_id
      → InPool b es
      → (it : HeapIterator) (b' : BufferManager D)
      → seek dm turns (at_slot dm k heap es s) b ≡ returned (some tt) (it, b')
      → SameCache b b'
  unfolding seek
  seek_still zero b heap es s r c h it b' e = cc
  seek_still (suc turns) b heap [] s r c h it b' e =
      let is : b ≡ b' = cc in
      subst (SameCache b) is (policy-SameCache b b.policy (λ w. w) (SameFrames-refl b.policy))
  seek_still (suc turns) b heap (e ∷ es) s r (n, d, c) h it b' eq =
      let (f, b₁, o) = request-Opened dm k b e.id r n.is_id in
      let (b₂, e₂, settled, kept, bytes) = release_read dm k b e.id r n.is_id f b₁ o in
      let (g, t) = h e.id (inl refl) in
      let same = visit_still b b₁ b₂ e.id g f r.valid t o.requested e₂ in
      let c₂ =
        Chain-Preserves k (λ p u. rw settled.akin.ids u) kept (e ∷ es) invalid_page_id (n, d, c) in
      let sh = shape dm k turns b heap e es s r n (n, d, c) f b₁ o in
      leave_still turns heap e es s f b b₁ b₂ b' it
        (stop dm k turns b heap e es s r n (n, d, c) f b₁ o) e₂ sh.linked same
        (seek_still turns b₂ heap es 0 (Settled-Ready k settled r) c₂.2
          (InPool-SameCache es same (λ p w. h p (inr w))) it b')
        (sym (seek_turn dm k turns b heap e es s r n (n, d, c) f b₁ o) ∙ eq)

  pub begin_still :
      (turns : ℕ) (b : BufferManager D) (heap : ℕ) (hf : HeapFile) (es : List Entry)
      → Ready b
      → Chain k b es invalid_page_id
      → hf.first_page_id ≡ head_id es invalid_page_id
      → InPool b es
      → (it : HeapIterator) (b' : BufferManager D)
      → begin dm turns heap hf b ≡ returned (some tt) (it, b')
      → SameCache b b'
  unfolding begin heap_iterator advance
  begin_still turns b heap hf [] r c first h it b' e =
      let done : returned (some tt) (end_of heap, b) ≡ returned (some tt) (it, b') =
        rw first at e in
      let is : b ≡ b' = cc in
      subst (SameCache b) is (policy-SameCache b b.policy (λ w. w) (SameFrames-refl b.policy))
  begin_still turns b heap hf (p ∷ es) r c first h it b' e =
      let proper : (p.id == invalid_page_id) ≡ false =
        ne→== p.id invalid_page_id (λ q. omega (arith, q, c.0.is_id)) in
      seek_still turns b heap (p ∷ es) 0 r c h it b' (rw (first, proper) at e)
