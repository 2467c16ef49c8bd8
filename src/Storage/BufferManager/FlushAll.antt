-- ===== src/Storage/BufferManager/FlushAll.antt =====
-- `flush_all()`: afterwards the disk has every page.
use cpp_relational_db.Base.{
  ℕ, zero, suc, ◌+◌, ◌<◌, ◌≡◌, inl, inr, refl, ap, ◌∙◌, subst, arith, length, eq_or_ne,
}
use cpp_relational_db.Storage.Bytes.{Page}
use cpp_relational_db.Storage.Disk.{IDiskManager, KeepsPages}
use cpp_relational_db.Storage.BufferManager.{
  BufferManager, frame, flush_if_dirty, flush_from, flush_all,
}
use cpp_relational_db.Storage.BufferManager.Invariant.{
  IsValid, Holds, cached, on_disk, Preserves, Akin, Akin-trans,
}
use cpp_relational_db.Storage.BufferManager.Flush.{
  flush_if_dirty_ne, flush_if_dirty_lem, flush_if_dirty-IsValid, flush_if_dirty-Preserves,
  flush_if_dirty-Akin,
}

module _ {D : Type 0} (dm : IDiskManager D) {Stores : D → ℕ → Page → Type 0}
    (k : KeepsPages dm Stores) where
  -- The loop of `flush_all`: nothing is lost, and the frames that it has passed are clean.
  pub flush_from_lem :
      (n i : ℕ) (b : BufferManager D)
      → IsValid b
      → i + n ≡ length b.pool
      → ((g : ℕ) → g < i → (frame b g).dirty ≡ 0)
      → IsValid (flush_from dm b i n)
        × Preserves Stores b (flush_from dm b i n)
        × (length (flush_from dm b i n).pool ≡ length b.pool)
        × ((g : ℕ) → g < length b.pool → (frame (flush_from dm b i n) g).dirty ≡ 0)
  unfolding flush_from
  flush_from_lem zero i b v e clean = (v, λ p x h. h, refl, λ g l. clean g (omega arith))
  flush_from_lem (suc n) i b v e clean =
      let l : i < length b.pool = omega arith in
      let (z, table, listed, size, pins) = flush_if_dirty_lem dm k b i v l in
      let (w, kept, size', done) =
        flush_from_lem n (suc i) (flush_if_dirty dm b i) (flush_if_dirty-IsValid dm k b i v l)
          (omega (arith, size))
          (λ g m. elim (eq_or_ne i g) [
            | inl same ↦ subst (λ h. (frame (flush_if_dirty dm b i) h).dirty ≡ 0) same z
            | inr ne ↦
                ap (λ fr. fr.dirty) (flush_if_dirty_ne dm k b i v l g ne) ∙ clean g (omega arith)
          ]) in
      (
        w,
        λ p x h. kept p x (flush_if_dirty-Preserves dm k b i v l p x h),
        size' ∙ size,
        λ g m. done g (rw size m),
      )

  -- On a valid pool over a disk that keeps pages, `flush_all` leaves the contents of every page
  -- on the disk itself and no frame dirty, no page loses its contents, and the pool stays
  -- valid.
  pub flush_all_lem :
      (b : BufferManager D)
      → IsValid b
      → IsValid (flush_all dm b)
        × Preserves Stores b (flush_all dm b)
        × ((p : ℕ) (x : Page) → Holds Stores b p x → Stores (flush_all dm b).disk p x)
        × ((f : ℕ) → f < length b.pool → (frame (flush_all dm b) f).dirty ≡ 0)
  unfolding flush_all
  flush_all_lem b v = (w, kept, λ p x h. durable p x (kept p x h), clean)
    where
      all :
          IsValid (flush_from dm b 0 (length b.pool))
          × Preserves Stores b (flush_from dm b 0 (length b.pool))
          × (length (flush_from dm b 0 (length b.pool)).pool ≡ length b.pool)
          × ((g : ℕ) → g < length b.pool → (frame (flush_from dm b 0 (length b.pool)) g).dirty ≡ 0)
      all = flush_from_lem (length b.pool) 0 b v (omega arith) (λ g l. absurd (omega arith))

      w : IsValid (flush_from dm b 0 (length b.pool))
      w = all.0

      kept : Preserves Stores b (flush_from dm b 0 (length b.pool))
      kept = all.1

      clean : (g : ℕ) → g < length b.pool → (frame (flush_from dm b 0 (length b.pool)) g).dirty ≡ 0
      clean = all.3

      durable :
          (p : ℕ) (x : Page)
          → Holds Stores (flush_from dm b 0 (length b.pool)) p x
          → Stores (flush_from dm b 0 (length b.pool)).disk p x
      durable p x (cached f t e (inl d)) = absurd (d (clean f (rw all.2 at (w.table p f t).0)))
      durable p x (cached f t e (inr s)) = s
      durable p x (on_disk t s) = s

  -- The disk gives out the page ids that it did.
  flush_from-Akin :
      (n i : ℕ) (b : BufferManager D)
      → IsValid b
      → i + n ≡ length b.pool
      → Akin k b (flush_from dm b i n)
  unfolding flush_from
  flush_from-Akin zero i b v e = record { size = refl; ids = refl }
  flush_from-Akin (suc n) i b v e =
      let l : i < length b.pool = omega arith in
      let first = flush_if_dirty-Akin dm k b i v l in
      Akin-trans k first (
        flush_from-Akin n (suc i) (flush_if_dirty dm b i) (flush_if_dirty-IsValid dm k b i v l)
          (omega (arith, first.size)))

  pub flush_all-Akin : (b : BufferManager D) → IsValid b → Akin k b (flush_all dm b)
  unfolding flush_all
  flush_all-Akin b v = flush_from-Akin (length b.pool) 0 b v (omega arith)

  -- No frame loses or gets a pin.
  flush_from_pins :
      (n i : ℕ) (b : BufferManager D)
      → IsValid b
      → i + n ≡ length b.pool
      → (g : ℕ) → (frame (flush_from dm b i n) g).pin_count ≡ (frame b g).pin_count
  unfolding flush_from
  flush_from_pins zero i b v e g = refl
  flush_from_pins (suc n) i b v e g =
      let l : i < length b.pool = omega arith in
      let (z, table, listed, size, pins) = flush_if_dirty_lem dm k b i v l in
      flush_from_pins n (suc i) (flush_if_dirty dm b i) (flush_if_dirty-IsValid dm k b i v l)
        (omega (arith, size)) g
      ∙ pins g

  pub flush_all_pins :
      (b : BufferManager D)
      → IsValid b
      → (g : ℕ) → (frame (flush_all dm b) g).pin_count ≡ (frame b g).pin_count
  unfolding flush_all
  flush_all_pins b v g = flush_from_pins (length b.pool) 0 b v (omega arith) g
