-- ===== src/Storage/ClockPolicy/Tests.antt =====
-- A clock over three frames, the frame 1 pinned and the frame 0 recently used.
use cpp_relational_db.Base.{if◌then◌else◌, ◌==◌, ℕ, ◌<◌, ◌≤◌, ◌≡◌, refl, arith, [], ◌∷◌, some}
use cpp_relational_db.Storage.ClockPolicy.{
  ClockPolicy, choose_victim, scan, pass, advance_hand, set_ref_bit, hand_frame, hand_bit,
}
use cpp_relational_db.Storage.ClockPolicy.Valid.{IsValid}
use cpp_relational_db.Storage.ClockPolicy.Sweep.{frame_at, bit_at, distance}
use cpp_relational_db.Storage.ClockPolicy.Victim.{
  choose_victim-unpinned, choose_victim-finds, choose_victim_second_chance,
}

abbrev three_frames : ClockPolicy
three_frames = record {
  hand = 0;
  n = 3;
  ref_bits = 1 ∷ 0 ∷ 0 ∷ [];
  frame_idx = λ f. f;
  frames = 0 ∷ 1 ∷ 2 ∷ [];
}

abbrev pins : ℕ → ℕ
pins f = if f == 1 then 1 else 0

three_frames-IsValid : IsValid three_frames
three_frames-IsValid = record { hand = omega arith; bits = refl }

test_victim : (choose_victim pins three_frames).1 ≡ some 2
unfolding choose_victim scan pass advance_hand set_ref_bit hand_frame hand_bit
test_victim = refl

choose_victim-unpinned_example : (p : ℕ) × (p < 3) × (2 ≡ frame_at three_frames p) × (pins 2 ≡ 0)
choose_victim-unpinned_example =
    choose_victim-unpinned pins three_frames three_frames-IsValid 2 test_victim

choose_victim-finds_example : (f : ℕ) × ((choose_victim pins three_frames).1 ≡ some f)
choose_victim-finds_example =
    choose_victim-finds pins three_frames three_frames-IsValid 0 (omega arith) refl

choose_victim_second_chance_example :
    (q : ℕ) × (q < 3)
    × ((choose_victim pins three_frames).1 ≡ some (frame_at three_frames q))
    × (pins (frame_at three_frames q) ≡ 0)
    × (bit_at three_frames q ≡ 0)
    × (distance 3 0 q ≤ distance 3 0 2)
choose_victim_second_chance_example =
    choose_victim_second_chance pins three_frames three_frames-IsValid 2 (omega arith) refl refl
