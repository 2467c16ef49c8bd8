-- ===== src/Access/HeapIterator/Live.antt =====
-- The records of a chain that an iteration goes over: those that were not deleted, page by page.
use mathlib.Core.Option
use cpp_relational_db.Base.{
  zero, suc, ℕ, ◌≤◌, ◌≡◌, refl, none, some, List, [], ◌∷◌, ◌++◌, arith, length, drop,
}
use cpp_relational_db.Storage.SlottedPage.Contents.{live_record}
use cpp_relational_db.Access.HeapFile.Chain.{Entry}

-- The records of a page that are not deleted.
abbrev pub live : List (List ℕ) → List (List ℕ)
live [] = []
live ([] ∷ rs) = live rs
live ((b ∷ bs) ∷ rs) = (b ∷ bs) ∷ live rs

abbrev pub live_records : List Entry → List (List ℕ)
live_records [] = []
live_records (e ∷ es) = live e.records ++ live_records es

-- The records from a slot of the first page on.
abbrev pub live_from : List Entry → ℕ → List (List ℕ)
live_from [] s = []
live_from (e ∷ es) s = live (drop s e.records) ++ live_records es

pub live_from_zero : (es : List Entry) → live_from es 0 ≡ live_records es
live_from_zero [] = refl
live_from_zero (e ∷ es) = refl

pub live-drop_dead :
    (rs : List (List ℕ)) (s : ℕ)
    → live_record rs s ≡ none
    → live (drop s rs) ≡ live (drop (suc s) rs)
unfolding Option.bind
live-drop_dead [] zero h = refl
live-drop_dead [] (suc s) h = refl
live-drop_dead ([] ∷ rs) zero h = refl
live-drop_dead ((b ∷ bs) ∷ rs) zero h = cc
live-drop_dead (r ∷ rs) (suc s) h = live-drop_dead rs s h

pub live-drop_present :
    (rs : List (List ℕ)) (s : ℕ) (r : List ℕ)
    → live_record rs s ≡ some r
    → live (drop s rs) ≡ r ∷ live (drop (suc s) rs)
unfolding Option.bind
live-drop_present [] zero r h = cc
live-drop_present [] (suc s) r h = cc
live-drop_present ([] ∷ rs) zero r h = cc
live-drop_present ((b ∷ bs) ∷ rs) zero r h = cc
live-drop_present (x ∷ rs) (suc s) r h = live-drop_present rs s r h

pub live-drop_above : (rs : List (List ℕ)) (s : ℕ) → length rs ≤ s → live (drop s rs) ≡ []
live-drop_above [] zero h = refl
live-drop_above [] (suc s) h = refl
live-drop_above (x ∷ rs) zero h = absurd (omega (arith, h))
live-drop_above (x ∷ rs) (suc s) h = live-drop_above rs s (omega (arith, h))
