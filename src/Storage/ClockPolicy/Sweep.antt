-- ===== src/Storage/ClockPolicy/Sweep.antt =====
-- The clock's loop while an unpinned frame with a clear bit is ahead of the hand.
use native.Mathlib.Nat.{mod-eq_of_lt, mod_self}
use cpp_relational_db.Base.{
  ℕ, zero, suc, ◌+◌, ◌-◌, ◌%◌, ◌≤◌, ◌<◌, ◌≡◌, ◌≢◌, ◌⊎◌, inl, inr, refl, sym, ap, subst, ◌∙◌, Option,
  some, ◌&&◌, ◌==◌, if◌then◌else◌, true, false, arith, Bool-cases, eq_or_ne, get_or,
  get_or-set_self, get_or-set_ne, leb,
}
use cpp_relational_db.Storage.ClockPolicy.{
  ClockPolicy, hand_frame, hand_bit, advance_hand, set_ref_bit, pass, scan,
}
use cpp_relational_db.Storage.ClockPolicy.Valid.{IsValid, pass-SameFrames, pass-IsValid}

-- How far a hand at `h` of `n` positions is from position `p`.
abbrev pub distance : ℕ → ℕ → ℕ → ℕ
distance n h p = if leb h p then p - h else p + n - h

next_position : (n h : ℕ) → h < n → ((h + 1) % n ≡ h + 1) ⊎ (((h + 1) % n ≡ 0) × (h + 1 ≡ n))
next_position n h l = elim (eq_or_ne (h + 1) n) [
  | inl last ↦ inr (rw last (mod_self n), last)
  | inr inner ↦ inl (mod-eq_of_lt (omega arith))
]

pub distance-next :
    (n h p : ℕ) → h < n → p < n → p ≢ h → suc (distance n ((h + 1) % n) p) ≡ distance n h p
distance-next n h p l m ne = ground (arith, next_position n h l)

pub distance-next_self : (n h : ℕ) → h < n → suc (distance n ((h + 1) % n) h) ≡ n
distance-next_self n h l = ground (arith, next_position n h l)

pub distance-lt : (n h p : ℕ) → h < n → p < n → distance n h p < n
distance-lt n h p l m = ground arith

distance_self : (n h : ℕ) → distance n h h ≡ 0
distance_self n h = ground arith

abbrev pub frame_at : ClockPolicy → ℕ → ℕ
frame_at c p = get_or c.frames p 0

abbrev pub bit_at : ClockPolicy → ℕ → ℕ
bit_at c p = get_or c.ref_bits p 0

module _ (pins : ℕ → ℕ) (c : ClockPolicy) (v : IsValid c) where
  pub hand-pass : (pass pins c).hand ≡ (c.hand + 1) % c.n
  unfolding pass advance_hand set_ref_bit
  hand-pass = ground arith

  pub frame_at-pass : (p : ℕ) → frame_at (pass pins c) p ≡ frame_at c p
  frame_at-pass p = ap (λ l. get_or l p 0) (pass-SameFrames pins c).frames

  bit_at-pass_ne : (p : ℕ) → p ≢ c.hand → bit_at (pass pins c) p ≡ bit_at c p
  unfolding pass advance_hand set_ref_bit
  bit_at-pass_ne p ne = ground (arith, get_or-set_ne c.ref_bits c.hand p 0 0 (λ e. ne (sym e)))

  pub bit_at-pass_hand : pins (frame_at c c.hand) ≡ 0 → bit_at (pass pins c) c.hand ≡ 0
  unfolding pass advance_hand set_ref_bit hand_frame
  bit_at-pass_hand u =
      ground (arith, get_or-set_self c.ref_bits c.hand 0 0 (omega (arith, v.hand, v.bits)))

-- A frame that the loop may return at once, at position `q`.
pub record Candidate (pins : ℕ → ℕ) (c : ClockPolicy) (q : ℕ) : Type 0 where
  pub within : q < c.n
  pub unpinned : pins (frame_at c q) ≡ 0
  pub bit : bit_at c q ≡ 0

-- From a turn on which a candidate is still ahead the loop returns a candidate, no further ahead.
pub record Chosen (pins : ℕ → ℕ) (c : ClockPolicy) (p : ℕ) (r : ClockPolicy × Option ℕ)
    : Type 0 where
  pub position : ℕ
  pub candidate : Candidate pins c position
  pub nearer : distance c.n c.hand position ≤ distance c.n c.hand p
  pub returned : r.1 ≡ some (frame_at c position)

pub stops :
    (pins : ℕ → ℕ) (c : ClockPolicy)
    → (pins (hand_frame c) == 0 && hand_bit c == 0) ≡ true
    → (pins (frame_at c c.hand) ≡ 0) × (bit_at c c.hand ≡ 0)
unfolding hand_frame hand_bit
stops pins c h = ground arith

pub goes_on :
    (pins : ℕ → ℕ) (c : ClockPolicy)
    → (pins (hand_frame c) == 0 && hand_bit c == 0) ≡ false
    → (p : ℕ) → Candidate pins c p
    → p ≢ c.hand
unfolding hand_frame hand_bit
goes_on pins c h p d e =
    let d' : Candidate pins c c.hand = subst (Candidate pins c) e d in
    ground (arith, d'.unpinned, d'.bit)

-- A turn that goes on: a candidate stays one, and one of the next turn was one.
module _ (pins : ℕ → ℕ) (c : ClockPolicy) (v : IsValid c) (p : ℕ) (d : Candidate pins c p)
    (go : (pins (hand_frame c) == 0 && hand_bit c == 0) ≡ false) where
  ahead : suc (distance c.n (pass pins c).hand p) ≡ distance c.n c.hand p
  ahead =
      rw (hand-pass pins c v) (distance-next c.n c.hand p v.hand d.within (goes_on pins c go p d))

  Candidate-pass : Candidate pins (pass pins c) p
  Candidate-pass = record {
    within = rw (pass-SameFrames pins c).n d.within;
    unpinned = rw (frame_at-pass pins c v p) d.unpinned;
    bit = rw (bit_at-pass_ne pins c v p (goes_on pins c go p d)) d.bit;
  }

  Chosen-pass : (r : ClockPolicy × Option ℕ) → Chosen pins (pass pins c) p r → Chosen pins c p r
  Chosen-pass r ch = record {
    position = q;
    candidate = record {
      within = within;
      unpinned = rw (frame_at-pass pins c v q) at ch.candidate.unpinned;
      bit = rw (bit_at-pass_ne pins c v q ne) at ch.candidate.bit;
    };
    nearer = omega (arith, near, ahead, next);
    returned = ch.returned ∙ ap some (frame_at-pass pins c v q);
  }
    where
      q : ℕ
      q = ch.position

      within : q < c.n
      within = rw (pass-SameFrames pins c).n at ch.candidate.within

      near : distance c.n (pass pins c).hand q ≤ distance c.n (pass pins c).hand p
      near = rw (pass-SameFrames pins c).n at ch.nearer

      ne : q ≢ c.hand
      ne e = omega (
        arith,
        ahead,
        distance-lt c.n c.hand p v.hand d.within,
        rw e at near,
        rw (← hand-pass pins c v) at (distance-next_self c.n c.hand v.hand),
      )

      next : suc (distance c.n (pass pins c).hand q) ≡ distance c.n c.hand q
      next = rw (hand-pass pins c v) (distance-next c.n c.hand q v.hand within ne)

at_hand : (c : ClockPolicy) → some (hand_frame c) ≡ some (frame_at c c.hand)
unfolding hand_frame
at_hand c = refl

pub scan-Chosen :
    (pins : ℕ → ℕ) (k : ℕ) (c : ClockPolicy) (p : ℕ)
    → IsValid c
    → Candidate pins c p
    → distance c.n c.hand p < k
    → Chosen pins c p (scan pins k c)
unfolding scan
scan-Chosen pins zero c p v d l = absurd (omega arith)
scan-Chosen pins (suc k) c p v d l =
    elim (Bool-cases (pins (hand_frame c) == 0 && hand_bit c == 0)) [
      | inl stop ↦ rw stop (record {
        position = c.hand;
        candidate = record {
          within = v.hand;
          unpinned = (stops pins c stop).0;
          bit = (stops pins c stop).1;
        };
        nearer = omega (arith, distance_self c.n c.hand);
        returned = at_hand c;
      })
      | inr go ↦ rw go (
          Chosen-pass pins c v p d go _ (
            scan-Chosen pins k (pass pins c) p (pass-IsValid pins c v)
              (Candidate-pass pins c v p d go)
              (rw (pass-SameFrames pins c).n (omega (arith, ahead pins c v p d go)))))
    ]
