-- ===== src/Storage/ClockPolicy.antt =====
-- include/storage/buffer_manager/replacement_policies/clock_policy.h and
-- src/storage/buffer_manager/replacement_policies/clock_policy.cpp: the second-chance policy. The
-- pin count that the policy reads through a `Frame*` comes as a function of the pointer.
pub mod Valid
pub mod Sweep
pub mod Victim
mod Tests
use cpp_relational_db.Base.{
  ℕ, zero, suc, ◌+◌, ◌*◌, ◌%◌, Option, none, some, List, [], ◌∷◌, ◌&&◌, ◌==◌, if◌then◌else◌, length,
  get_or, set, replicate,
}

pub record ClockPolicy : Type 0 where
  pub hand : ℕ
  pub n : ℕ
  pub ref_bits : List ℕ
  pub frame_idx : ℕ → ℕ
  pub frames : List ℕ

-- The map that the constructor's loop fills; a key that is not there reads as 0.
unfoldable pub index_frames : List ℕ → ℕ → (ℕ → ℕ) → ℕ → ℕ
index_frames [] i m = m
index_frames (f ∷ fs) i m = index_frames fs (i + 1) (λ g. if g == f then i else m g)

unfoldable pub new_clock : List ℕ → ClockPolicy
new_clock frames = record {
  hand = 0;
  n = length frames;
  ref_bits = replicate (length frames) 0;
  frame_idx = index_frames frames 0 (λ _. 0);
  frames = frames;
}

unfoldable pub advance_hand : ClockPolicy → ClockPolicy
advance_hand c = record c { hand = (c.hand + 1) % c.n }

unfoldable pub set_ref_bit : ClockPolicy → ℕ → ℕ → ClockPolicy
set_ref_bit c idx v = record c { ref_bits = set c.ref_bits idx v }

-- The frame under the hand, and its reference bit.
unfoldable pub hand_frame : ClockPolicy → ℕ
hand_frame c = get_or c.frames c.hand 0

unfoldable pub hand_bit : ClockPolicy → ℕ
hand_bit c = get_or c.ref_bits c.hand 0

-- One turn of the loop that returns no frame.
unfoldable pub pass : (ℕ → ℕ) → ClockPolicy → ClockPolicy
pass pin_count c =
    advance_hand (if pin_count (hand_frame c) == 0 then set_ref_bit c c.hand 0 else c)

-- The loop with `k` turns left.
unfoldable pub scan : (ℕ → ℕ) → ℕ → ClockPolicy → ClockPolicy × Option ℕ
scan pin_count zero c = (c, none)
scan pin_count (suc k) c =
    let rest = scan pin_count k (pass pin_count c) in
    if pin_count (hand_frame c) == 0 && hand_bit c == 0 then (c, some (hand_frame c)) else rest

unfoldable pub choose_victim : (ℕ → ℕ) → ClockPolicy → ClockPolicy × Option ℕ
choose_victim pin_count c = scan pin_count (2 * c.n) c

unfoldable pub record_access : ClockPolicy → ℕ → ClockPolicy
record_access c f = set_ref_bit c (c.frame_idx f) 1

unfoldable pub record_load : ClockPolicy → ℕ → ClockPolicy
record_load c f = set_ref_bit c (c.frame_idx f) 1

unfoldable pub record_unpin : ClockPolicy → ℕ → ClockPolicy
record_unpin c f = set_ref_bit c (c.frame_idx f) 0
