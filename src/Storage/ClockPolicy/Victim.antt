-- ===== src/Storage/ClockPolicy/Victim.antt =====
-- What the clock chooses: an unpinned frame whenever there is one, and one whose reference bit is
-- clear while there is such a frame.
use cpp_relational_db.Base.{
  ℕ, zero, suc, ◌+◌, ◌*◌, ◌≤◌, ◌<◌, ◌≡◌, ◌≢◌, inl, inr, refl, sym, ◌∙◌, some, ◌&&◌, ◌==◌, arith,
  Bool-cases, eq_or_ne,
}
use cpp_relational_db.Storage.ClockPolicy.{
  ClockPolicy, hand_frame, hand_bit, pass, scan, choose_victim,
}
use cpp_relational_db.Storage.ClockPolicy.Valid.{
  IsValid, SameFrames, pass-SameFrames, pass-IsValid, scan-IsValid,
}
use cpp_relational_db.Storage.ClockPolicy.Sweep.{
  Candidate, frame_at, bit_at, distance, stops, scan-Chosen, distance-next, distance-next_self,
  distance-lt, hand-pass, frame_at-pass, bit_at-pass_hand,
}

-- A turn over an unpinned frame with its bit set clears the bit and leaves the frame behind.
module _ (pins : ℕ → ℕ) (c : ClockPolicy) (v : IsValid c) where
  cleared : pins (frame_at c c.hand) ≡ 0 → Candidate pins (pass pins c) c.hand
  cleared u = record {
    within = rw (pass-SameFrames pins c).n v.hand;
    unpinned = rw (frame_at-pass pins c v c.hand) u;
    bit = bit_at-pass_hand pins c v u;
  }

  pass_here : suc (distance (pass pins c).n (pass pins c).hand c.hand) ≡ c.n
  pass_here =
      rw ((pass-SameFrames pins c).n, hand-pass pins c v) (distance-next_self c.n c.hand v.hand)

  pass_other :
      (p : ℕ)
      → p < c.n
      → p ≢ c.hand
      → suc (distance (pass pins c).n (pass pins c).hand p) ≡ distance c.n c.hand p
  pass_other p l ne =
      rw ((pass-SameFrames pins c).n, hand-pass pins c v) (distance-next c.n c.hand p v.hand l ne)

-- Two sweeps find an unpinned frame, whatever the bits are.
scan-finds :
    (pins : ℕ → ℕ) (k : ℕ) (c : ClockPolicy) (p : ℕ)
    → IsValid c
    → p < c.n
    → pins (frame_at c p) ≡ 0
    → distance c.n c.hand p + c.n < k
    → (f : ℕ) × ((scan pins k c).1 ≡ some f)
unfolding scan
scan-finds pins zero c p v l u e = absurd (omega (arith, l))
scan-finds pins (suc k) c p v l u e =
    elim (Bool-cases (pins (hand_frame c) == 0 && hand_bit c == 0)) [
      | inl stop ↦ rw stop (hand_frame c, refl)
      | inr go ↦ rw go (elim (eq_or_ne p c.hand) [
        | inl here ↦
            let ch =
              scan-Chosen pins k (pass pins c) c.hand (pass-IsValid pins c v)
                (cleared pins c v (rw here at u)) (omega (arith, pass_here pins c v)) in
            (frame_at (pass pins c) ch.position, ch.returned)
        | inr other ↦
            scan-finds pins k (pass pins c) p (pass-IsValid pins c v)
              (rw (pass-SameFrames pins c).n l) (rw (frame_at-pass pins c v p) u)
              (omega (arith, pass_other pins c v p l other, (pass-SameFrames pins c).n))
      ])
    ]

-- The loop returns unpinned frames of the policy only.
scan-unpinned :
    (pins : ℕ → ℕ) (k : ℕ) (c : ClockPolicy) (f : ℕ)
    → IsValid c
    → (scan pins k c).1 ≡ some f
    → (p : ℕ) × (p < c.n) × (f ≡ frame_at c p) × (pins f ≡ 0)
unfolding scan hand_frame
scan-unpinned pins zero c f v e = cc
scan-unpinned pins (suc k) c f v e =
    elim (Bool-cases (pins (hand_frame c) == 0 && hand_bit c == 0)) [
      | inl stop ↦
          let same : hand_frame c ≡ f =
            let e' : some (hand_frame c) ≡ some f = rw stop at e in cc in
          (c.hand, v.hand, sym same, rw (← same) (stops pins c stop).0)
      | inr go ↦
          let (p, l, s, u) =
            scan-unpinned pins k (pass pins c) f (pass-IsValid pins c v) (rw go at e) in
          (p, rw (pass-SameFrames pins c).n at l, s ∙ frame_at-pass pins c v p, u)
    ]

module _ (pin_count : ℕ → ℕ) (c : ClockPolicy) (v : IsValid c) where
  pub choose_victim-IsValid :
      IsValid (choose_victim pin_count c).0 × SameFrames c (choose_victim pin_count c).0
  unfolding choose_victim
  choose_victim-IsValid = scan-IsValid pin_count (2 * c.n) c v

  -- On a valid clock, a frame that `choose_victim` returns is one of the policy's and is
  -- unpinned.
  pub choose_victim-unpinned :
      (f : ℕ)
      → (choose_victim pin_count c).1 ≡ some f
      → (p : ℕ) × (p < c.n) × (f ≡ frame_at c p) × (pin_count f ≡ 0)
  unfolding choose_victim
  choose_victim-unpinned f e = scan-unpinned pin_count (2 * c.n) c f v e

  -- On a valid clock, if any frame of the policy is unpinned, the two sweeps of `choose_victim`
  -- return a frame.
  pub choose_victim-finds :
      (p : ℕ)
      → p < c.n
      → pin_count (frame_at c p) ≡ 0
      → (f : ℕ) × ((choose_victim pin_count c).1 ≡ some f)
  unfolding choose_victim
  choose_victim-finds p l u =
      scan-finds pin_count (2 * c.n) c p v l u (omega (arith, distance-lt c.n c.hand p v.hand l))

  -- Second chance: on a valid clock, while an unpinned frame has its reference bit clear, the
  -- victim is an unpinned frame whose bit is clear, and it is met no later than that frame in
  -- the order of the clock.
  pub choose_victim_second_chance :
      (p : ℕ)
      → p < c.n
      → pin_count (frame_at c p) ≡ 0
      → bit_at c p ≡ 0
      → (q : ℕ) × (q < c.n)
        × ((choose_victim pin_count c).1 ≡ some (frame_at c q))
        × (pin_count (frame_at c q) ≡ 0)
        × (bit_at c q ≡ 0)
        × (distance c.n c.hand q ≤ distance c.n c.hand p)
  unfolding choose_victim
  choose_victim_second_chance p l u b =
      let ch =
        scan-Chosen pin_count (2 * c.n) c p v (record { within = l; unpinned = u; bit = b })
          (omega (arith, distance-lt c.n c.hand p v.hand l)) in
      let d = ch.candidate in (ch.position, d.within, ch.returned, d.unpinned, d.bit, ch.nearer)
