-- ===== src/Access/HeapFile/History/Slots.antt =====
-- What `SlottedPage::Update` and `SlottedPage::Delete` do to the records of a page's slots.
use mathlib.Core.Option
use cpp_relational_db.Base.{
  zero, suc, ℕ, ◌<◌, ◌≡◌, inl, inr, ◌==◌, ◌&&◌, Bool, false, refl, ap, ◌∙◌, List, [], ◌∷◌, length,
  set, leb, ◌||◌, get_or, Bool-cases, if◌then◌else◌, ne→==, leb→lt, arith,
}
use cpp_relational_db.Storage.SlottedPage.Contents.{live_record, nonempty}
use cpp_relational_db.Storage.SlottedPage.Update.{update_spec, delete_spec}

live_record-set :
    (rs : List (List ℕ)) (i : ℕ) (bs : List ℕ) (j : ℕ)
    → i < length rs
    → live_record (set rs i bs) j ≡ (if i == j then nonempty bs else live_record rs j)
unfolding Option.bind
live_record-set [] i bs j l = absurd (omega (arith, l))
live_record-set (r ∷ rs) zero bs zero l = refl
live_record-set (r ∷ rs) zero bs (suc j) l =
    let apart : (0 == suc j) ≡ false = ne→== 0 (suc j) (λ s. omega (arith, s)) in rw apart refl
live_record-set (r ∷ rs) (suc i) bs zero l =
    let apart : (suc i == 0) ≡ false = ne→== (suc i) 0 (λ s. omega (arith, s)) in rw apart refl
live_record-set (r ∷ rs) (suc i) bs (suc j) l =
    live_record-set rs i bs j (omega (arith, l))
    ∙ ap (λ t. if t then nonempty bs else live_record rs j) (same_suc i j)
  where
    same_suc : (m n : ℕ) → (m == n) ≡ (suc m == suc n)
    same_suc m n = ground arith

-- The slots of a page after an operation on slot `i` that wrote `bs`, or did nothing.
abbrev pub Slots : List (List ℕ) → ℕ → List ℕ → List (List ℕ) × Bool → Type 0
Slots rs i bs spec =
    (j : ℕ) → live_record spec.0 j ≡ (if spec.1 && i == j then nonempty bs else live_record rs j)

pub update_spec-Slots :
    (room : ℕ) (rs : List (List ℕ)) (i : ℕ) (bs : List ℕ) → Slots rs i bs (update_spec room rs i bs)
unfolding update_spec
update_spec-Slots room rs i bs j = elim (Bool-cases (leb (length rs) i)) [
  | inl over ↦ rw over refl
  | inr within ↦
      elim (Bool-cases (leb (length bs) (length (get_or rs i [])) || leb (length bs) room)) [
        | inl fits ↦ rw (within, fits) (live_record-set rs i bs j (leb→lt _ _ within))
        | inr large ↦ rw (within, large) refl
      ]
]

pub delete_spec-Slots : (rs : List (List ℕ)) (i : ℕ) → Slots rs i [] (delete_spec rs i)
unfolding delete_spec
delete_spec-Slots rs i j = elim (Bool-cases (leb (length rs) i)) [
  | inl over ↦ rw over refl
  | inr within ↦ rw within (live_record-set rs i [] j (leb→lt _ _ within))
]
