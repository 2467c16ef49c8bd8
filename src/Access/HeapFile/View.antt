-- ===== src/Access/HeapFile/View.antt =====
-- A heap file as a map from record ids to records, and what an insertion makes of it.
use mathlib.Core.Option
use cpp_relational_db.Base.{
  zero, suc, ℕ, ◌+◌, ◌≡◌, ◌≢◌, ◌⊎◌, inl, inr, ◌==◌, ◌&&◌, Bool, false, refl, sym, ap, ◌∙◌, subst,
  List, [], ◌∷◌, ◌++◌, Option, none, some, length, ltb, Bool-cases, if◌then◌else◌, ==→eq, ne→==,
  arith,
}
use cpp_relational_db.Storage.SlottedPage.{size_of_slot}
use cpp_relational_db.Storage.SlottedPage.Contents.{live_record, nonempty}
use cpp_relational_db.Access.HeapFile.{Rid}
use cpp_relational_db.Access.HeapFile.Chain.{Entry, Away}
use cpp_relational_db.Access.HeapFile.Walk.{place, place_full, place_free}
use cpp_relational_db.Access.HeapFile.Shape.{appended, blank}
use cpp_relational_db.Access.HeapFile.Append.{new_page}

abbrev pub same_rid : Rid → Rid → Bool
same_rid r s = r.page_id == s.page_id && r.slot_id == s.slot_id

-- The record of an id; one of no bytes is a deleted one.
abbrev pub view : List Entry → Rid → Option (List ℕ)
view [] rid = none
view (e ∷ es) rid = if e.id == rid.page_id then live_record e.records rid.slot_id else view es rid

-- A page of the chain.
abbrev pub Within : ℕ → List Entry → Type 0
Within p [] = ⊥
Within p (e ∷ es) = (p ≡ e.id) ⊎ Within p es

-- No page is there twice.
abbrev pub Distinct : List Entry → Type 0
Distinct [] = Unit {0}
Distinct (e ∷ es) = Away e.id es × Distinct es

-- The map with the record `bs` under an id.
abbrev pub with_record : Rid → List ℕ → (Rid → Option (List ℕ)) → Rid → Option (List ℕ)
with_record rid bs m r = if same_rid rid r then nonempty bs else m r

pub Within-append : (p : ℕ) (es fs : List Entry) → Within p es → Within p (es ++ fs)
Within-append p [] fs w = absurd w
Within-append p (e ∷ es) fs (inl s) = inl s
Within-append p (e ∷ es) fs (inr w) = inr (Within-append p es fs w)

pub Within-last : (e : Entry) (es : List Entry) → Within e.id (es ++ e ∷ [])
Within-last e [] = inl refl
Within-last e (f ∷ es) = inr (Within-last e es)

pub Away-Within : (p q : ℕ) (es : List Entry) → Away p es → Within q es → p ≢ q
Away-Within p q [] a w = absurd w
Away-Within p q (e ∷ es) (ne, a) (inl s) = λ t. ne (t ∙ s)
Away-Within p q (e ∷ es) (ne, a) (inr w) = Away-Within p q es a w

live_record-append :
    (rs : List (List ℕ)) (bs : List ℕ) (i : ℕ)
    → live_record (rs ++ bs ∷ []) i ≡ (if length rs == i then nonempty bs else live_record rs i)
unfolding Option.bind
live_record-append [] bs zero = refl
live_record-append [] bs (suc i) =
    let apart : (0 == suc i) ≡ false = ne→== 0 (suc i) (λ s. omega (arith, s)) in rw apart refl
live_record-append (r ∷ rs) bs zero =
    let apart : (suc (length rs) == 0) ≡ false =
      ne→== (suc (length rs)) 0 (λ s. omega (arith, s)) in
    rw apart refl
live_record-append (r ∷ rs) bs (suc i) =
    live_record-append rs bs i
    ∙ ap (λ t. if t then nonempty bs else live_record rs i) (same_suc (length rs) i)
  where
    same_suc : (m n : ℕ) → (m == n) ≡ (suc m == suc n)
    same_suc m n = ground arith

-- A page with one more record.
view-appended :
    (e : Entry) (es : List Entry) (bs : List ℕ) (r : Rid)
    → view (appended e bs ∷ es) r
      ≡ with_record (record { page_id = e.id; slot_id = length e.records }) bs (view (e ∷ es)) r
view-appended e es bs r = elim (Bool-cases (e.id == r.page_id)) [
  | inl here ↦ rw here (live_record-append e.records bs r.slot_id)
  | inr there ↦ rw there
]

module _ (bs : List ℕ) where
  -- Where the record was placed, the map has it under its id.
  abbrev pub PlacedAt : List Entry → Option (List Entry × Rid) → Type 0
  PlacedAt es none = Unit {0}
  PlacedAt es (some (fs, rid)) =
      Within rid.page_id es
      × ((r : Rid) → view fs r ≡ with_record rid bs (view es) r)
      × ((p : ℕ) → Within p es → Within p fs)

  placed_behind :
      (e : Entry) (es : List Entry) (o : Option (List Entry × Rid))
      → Away e.id es
      → PlacedAt es o
      → PlacedAt (e ∷ es) (Option.map (λ r. (e ∷ r.0, r.1)) o)
  placed_behind e es none a h = tt
  placed_behind e es (some (fs, rid)) a (w, same, more) = (
    inr w,
    λ r. elim (Bool-cases (e.id == r.page_id)) [
      | inl here ↦
          let apart : (rid.page_id == r.page_id) ≡ false =
            ne→== rid.page_id r.page_id
              (λ s. Away-Within e.id rid.page_id es a w (==→eq _ _ here ∙ sym s)) in
          rw (here, apart)
      | inr there ↦ rw there (same r)
    ],
    still,
  )
    where
      still : (p : ℕ) → Within p (e ∷ es) → Within p (e ∷ fs)
      still p (inl s) = inl s
      still p (inr v) = inr (more p v)

  pub place-PlacedAt : (es : List Entry) → Distinct es → PlacedAt es (place bs es)
  unfolding place
  place-PlacedAt [] d = tt
  place-PlacedAt (e ∷ es) (a, d) = elim (Bool-cases (ltb e.room (length bs + size_of_slot))) [
    | inl full ↦
        rw (place_full bs e es full) (placed_behind e es (place bs es) a (place-PlacedAt es d))
    | inr free ↦ rw (place_free bs e es free) (inl refl, view-appended e es bs, λ p w. w)
  ]

  -- The map after an insertion.
  abbrev pub after_map : Option Rid → (Rid → Option (List ℕ)) → Rid → Option (List ℕ)
  after_map none m r = m r
  after_map (some rid) m r = with_record rid bs m r

  view_last :
      (es : List Entry) (e : Entry) (r : Rid)
      → Away e.id es
      → view (es ++ e ∷ []) r
        ≡ (if e.id == r.page_id then live_record e.records r.slot_id else view es r)
  view_last [] e r a = refl
  view_last (f ∷ es) e r (ne, a) = elim (Bool-cases (f.id == r.page_id)) [
    | inl here ↦
        let apart : (e.id == r.page_id) ≡ false =
          ne→== e.id r.page_id (λ s. ne (s ∙ sym (==→eq _ _ here))) in
        rw (here, apart)
    | inr there ↦ rw there (view_last es e r a)
  ]

  view-Away : (es : List Entry) (r : Rid) → Away r.page_id es → view es r ≡ none
  view-Away [] r a = refl
  view-Away (e ∷ es) r (ne, a) =
      let apart : (e.id == r.page_id) ≡ false = ne→== e.id r.page_id (λ s. ne (sym s)) in
      rw apart (view-Away es r a)

  no_records : (i : ℕ) → live_record [] i ≡ none
  unfolding Option.bind
  no_records i = refl

  -- The page that is appended, with the record if it fits.
  pub view-new_page :
      (new : ℕ) (es : List Entry) (r : Rid)
      → Away new es
      → view (es ++ (new_page new bs).0 ∷ []) r ≡ after_map (new_page new bs).1 (view es) r
  unfolding new_page
  view-new_page new es r a = elim (Bool-cases (ltb 8180 (length bs + size_of_slot))) [
    | inl large ↦ rw large (view_last es (blank new) r a ∙ nothing)
    | inr fits ↦ rw fits (view_last es (appended (blank new) bs) r a ∙ first)
  ]
    where
      nothing : (if new == r.page_id then live_record [] r.slot_id else view es r) ≡ view es r
      nothing = elim (Bool-cases (new == r.page_id)) [
        | inl here ↦ rw here (
            no_records r.slot_id ∙ sym (view-Away es r (subst (λ p. Away p es) (==→eq _ _ here) a)))
        | inr there ↦ rw there
      ]

      first :
          (if new == r.page_id then live_record (bs ∷ []) r.slot_id else view es r)
          ≡ with_record (record { page_id = new; slot_id = 0 }) bs (view es) r
      first = elim (Bool-cases (new == r.page_id)) [
        | inl here ↦ rw here (
            live_record-append [] bs r.slot_id
            ∙ ap (λ o. if 0 == r.slot_id then nonempty bs else o)
                (no_records r.slot_id
                  ∙ sym (view-Away es r (subst (λ p. Away p es) (==→eq _ _ here) a))))
        | inr there ↦ rw there
      ]
