-- ===== src/Storage/BufferManager/Release.antt =====
-- `release()` of the buffer manager in all its cases.
use cpp_relational_db.Base.{
  ℕ, ◌+◌, ◌^◌, ◌<◌, ◌≤◌, ◌≡◌, ◌≢◌, ◌⊎◌, ◌==◌, inl, inr, refl, sym, ap, ◌∙◌, true, false, none, some,
  arith, if◌then◌else◌, Bool-cases, Option-cases,
}
use cpp_relational_db.Storage.ClockPolicy.{record_unpin}
use cpp_relational_db.Storage.BufferManager.{
  BufferManager, Outcome, returned, thrown, page_not_found, pin_count_zero, frame, not_positive,
  unpin, note_unpin, release,
}
use cpp_relational_db.Storage.BufferManager.Invariant.{IsValid, SameCache, SameCache-IsValid}
use cpp_relational_db.Storage.BufferManager.Pins.{
  unpin_self, unpin_ne, note_unpin_lem, SameCache-trans, unpin-SameCache, release_missing,
  release_unpinned,
}

-- What `release` comes to: a page in no frame and one whose frame has a pin count that is zero or,
-- as a signed number, negative are refused and nothing changes; otherwise the frame loses one pin,
-- and the policy hears of it when it was the last.
pub data Released {D : Type 0} (b : BufferManager D) (pid : ℕ)
    : Outcome (BufferManager D) (Unit {0}) → Type 0 where
  missing : b.page_table pid ≡ none → Released b pid (thrown page_not_found b)
  unpinned :
      (f : ℕ)
      → b.page_table pid ≡ some f
      → ((frame b f).pin_count ≡ 0) ⊎ (2 ^ 31 ≤ (frame b f).pin_count)
      → Released b pid (thrown pin_count_zero b)
  pinned :
      (f : ℕ) (b' : BufferManager D)
      → b.page_table pid ≡ some f
      → 0 < (frame b f).pin_count
      → (frame b f).pin_count < 2 ^ 31
      → IsValid b'
      → SameCache b b'
      → (frame b' f).pin_count + 1 ≡ (frame b f).pin_count
      → ((g : ℕ) → f ≢ g → (frame b' g).pin_count ≡ (frame b g).pin_count)
      → b'.policy ≡ (if (frame b' f).pin_count == 0 then record_unpin b.policy f else b.policy)
      → Released b pid (returned tt b')

not_positive_lem : (n : ℕ) → not_positive n ≡ true → (n ≡ 0) ⊎ (2 ^ 31 ≤ n)
not_positive_lem n h = ground arith

positive_of : (n : ℕ) → not_positive n ≡ false → (0 < n) × (n < 2 ^ 31)
positive_of n h = ground arith

policy-note_unpin :
    {D : Type 0} (b : BufferManager D) (f : ℕ)
    → (note_unpin (unpin b f) f).policy
      ≡ (if (frame (unpin b f) f).pin_count == 0 then record_unpin b.policy f else b.policy)
unfolding note_unpin unpin
policy-note_unpin b f = elim (Bool-cases ((frame (unpin b f) f).pin_count == 0)) [
  | inl z ↦ rw z refl
  | inr nz ↦ rw nz refl
]

module _ {D : Type 0} (b : BufferManager D) (pid : ℕ) (v : IsValid b) where
  release-some :
      (f : ℕ)
      → b.page_table pid ≡ some f
      → not_positive (frame b f).pin_count ≡ false
      → Released b pid (release b pid)
  unfolding release
  release-some f t positive =
      let (l, _, _) = v.table pid f t in
      let first = unpin-SameCache b f in
      let (second, pins) = note_unpin_lem (unpin b f) f (SameCache-IsValid first v) in
      let same = SameCache-trans first second in
      let (pos, small) = positive_of (frame b f).pin_count positive in
      rw (t, release)
        (rw positive (
          pinned f (note_unpin (unpin b f) f) t pos small (SameCache-IsValid same v) same
            (omega (arith, pins f, unpin_self b f l, pos, small))
            (λ g ne. pins g ∙ unpin_ne b f g ne)
            (policy-note_unpin b f
              ∙ ap (λ c. if c == 0 then record_unpin b.policy f else b.policy) (sym (pins f)))))

  -- On a valid pool, `release` of any page: it throws and changes nothing when the page is in no
  -- frame or the frame's pin count is not positive, and otherwise takes one pin from the page's
  -- frame and none from another, tells the policy when the frame has none left, and leaves the pool
  -- valid, and the page table, the free list, the disk and the frames' pages, data and dirty flags
  -- as they were.
  pub release-Released : Released b pid (release b pid)
  release-Released = elim (Option-cases (b.page_table pid)) [
    | inl t ↦ rw (release_missing b pid t) (missing t)
    | inr (f, t) ↦ elim (Bool-cases (not_positive (frame b f).pin_count)) [
      | inl z ↦
          rw (release_unpinned b pid f t z)
            (unpinned f t (not_positive_lem (frame b f).pin_count z))
      | inr positive ↦ release-some f t positive
    ]
  ]
