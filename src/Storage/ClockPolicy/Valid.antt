-- ===== src/Storage/ClockPolicy/Valid.antt =====
-- The invariant of the clock, kept by its loop and by the events on frames.
use cpp_relational_db.Base.{
  ℕ, zero, suc, ◌<◌, ◌≡◌, inl, inr, refl, ◌∙◌, ◌&&◌, ◌==◌, length, arith, Bool-cases, length-set,
}
use cpp_relational_db.Storage.ClockPolicy.{
  ClockPolicy, hand_frame, hand_bit, advance_hand, set_ref_bit, pass, scan, record_access,
  record_load, record_unpin,
}

-- The hand stands on one of the frames, and there is a reference bit for each.
pub record IsValid (c : ClockPolicy) : Type 0 where
  pub hand : c.hand < c.n
  pub bits : length c.ref_bits ≡ c.n

-- What the policy never changes after its construction.
pub record SameFrames (c c' : ClockPolicy) : Type 0 where
  pub n : c'.n ≡ c.n
  pub frames : c'.frames ≡ c.frames
  pub frame_idx : c'.frame_idx ≡ c.frame_idx

pub pass-SameFrames : (pins : ℕ → ℕ) (c : ClockPolicy) → SameFrames c (pass pins c)
unfolding pass advance_hand set_ref_bit
pass-SameFrames pins c = ground arith

pub pass-IsValid : (pins : ℕ → ℕ) (c : ClockPolicy) → IsValid c → IsValid (pass pins c)
unfolding pass advance_hand set_ref_bit
pass-IsValid pins c v = ground (arith, length-set c.ref_bits c.hand 0)

SameFrames-trans : {a b c : ClockPolicy} → SameFrames a b → SameFrames b c → SameFrames a c
SameFrames-trans x y = record {
  n = y.n ∙ x.n;
  frames = y.frames ∙ x.frames;
  frame_idx = y.frame_idx ∙ x.frame_idx;
}

pub scan-IsValid :
    (pins : ℕ → ℕ) (k : ℕ) (c : ClockPolicy)
    → IsValid c
    → IsValid (scan pins k c).0 × SameFrames c (scan pins k c).0
unfolding scan
scan-IsValid pins zero c v = (v, record { n = refl; frames = refl; frame_idx = refl })
scan-IsValid pins (suc k) c v = elim (Bool-cases (pins (hand_frame c) == 0 && hand_bit c == 0)) [
  | inl stop ↦ rw stop (v, record { n = refl; frames = refl; frame_idx = refl })
  | inr go ↦
      let (w, s) = scan-IsValid pins k (pass pins c) (pass-IsValid pins c v) in
      rw go (w, SameFrames-trans (pass-SameFrames pins c) s)
]

-- The events on a frame set its bit and leave the policy valid.
module _ (c : ClockPolicy) (f : ℕ) (v : IsValid c) where
  pub record_access-IsValid : IsValid (record_access c f) × SameFrames c (record_access c f)
  unfolding record_access set_ref_bit
  record_access-IsValid = ground (arith, length-set c.ref_bits (c.frame_idx f) 1)

  pub record_load-IsValid : IsValid (record_load c f) × SameFrames c (record_load c f)
  unfolding record_load set_ref_bit
  record_load-IsValid = ground (arith, length-set c.ref_bits (c.frame_idx f) 1)

  pub record_unpin-IsValid : IsValid (record_unpin c f) × SameFrames c (record_unpin c f)
  unfolding record_unpin set_ref_bit
  record_unpin-IsValid = ground (arith, length-set c.ref_bits (c.frame_idx f) 0)
