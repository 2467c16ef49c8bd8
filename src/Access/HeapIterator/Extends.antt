-- ===== src/Access/HeapIterator/Extends.antt =====
-- The records that an iteration goes over after `HeapFile::Insert`: those from before, and the new one.
use mathlib.Core.Option
use cpp_relational_db.Base.{
  ℕ, ◌+◌, ◌<◌, ◌≤◌, ◌≡◌, ◌++◌, inl, inr, refl, sym, ap, ◌∙◌, subst, List, [], ◌∷◌, Option, none,
  some, length, ltb, Bool-cases, Option-cases, append_assoc, append-nil, length-append, le→ltb,
  arith,
}
use cpp_relational_db.Storage.Disk.{invalid_page_id}
use cpp_relational_db.Storage.SlottedPage.{size_of_slot}
use cpp_relational_db.Access.HeapFile.{Rid}
use cpp_relational_db.Access.HeapFile.Chain.{Entry, head_id}
use cpp_relational_db.Access.HeapFile.Walk.{place, place_full, place_free, head_after}
use cpp_relational_db.Access.HeapFile.Shape.{appended, blank}
use cpp_relational_db.Access.HeapFile.Append.{new_page}
use cpp_relational_db.Access.HeapFile.Insert.{insert_into, insert_into_full, insert_into_placed}
use cpp_relational_db.Access.HeapIterator.Live.{live, live_records}

-- `new` is `old` with `bs` at some place.
abbrev pub Extends : List ℕ → List (List ℕ) → List (List ℕ) → Type 0
Extends bs old new =
    (xs : List (List ℕ)) × (ys : List (List ℕ)) × (old ≡ xs ++ ys) × (new ≡ xs ++ bs ∷ ys)

live-append :
    (rs : List (List ℕ)) (bs : List ℕ) → 0 < length bs → live (rs ++ bs ∷ []) ≡ live rs ++ bs ∷ []
live-append [] [] h = absurd (omega (arith, h))
live-append [] (b ∷ bs) h = refl
live-append ([] ∷ rs) bs h = live-append rs bs h
live-append ((x ∷ xs) ∷ rs) bs h = ap (λ t. (x ∷ xs) ∷ t) (live-append rs bs h)

live_records-append :
    (es : List Entry) (e : Entry) → live_records (es ++ e ∷ []) ≡ live_records es ++ live e.records
live_records-append [] e = append-nil (live e.records)
live_records-append (f ∷ es) e =
    ap (λ t. live f.records ++ t) (live_records-append es e)
    ∙ sym (append_assoc (live f.records) (live_records es) (live e.records))

module _ (bs : List ℕ) (some_bytes : 0 < length bs) where
  -- Where the record was placed the chain has one more, on as many pages.
  abbrev PlacedIn : List Entry → Option (List Entry × Rid) → Type 0
  PlacedIn es none = Unit {0}
  PlacedIn es (some (fs, rid)) =
      Extends bs (live_records es) (live_records fs) × (length fs ≡ length es)

  placed_behind :
      (e : Entry) (es : List Entry) (o : Option (List Entry × Rid))
      → PlacedIn es o
      → PlacedIn (e ∷ es) (Option.map (λ r. (e ∷ r.0, r.1)) o)
  placed_behind e es none h = tt
  placed_behind e es (some (fs, rid)) ((xs, ys, p, q), l) = (
    (
      live e.records ++ xs,
      ys,
      ap (λ t. live e.records ++ t) p ∙ sym (append_assoc (live e.records) xs ys),
      ap (λ t. live e.records ++ t) q ∙ sym (append_assoc (live e.records) xs (bs ∷ ys)),
    ),
    omega (arith, l),
  )

  place-PlacedIn : (es : List Entry) → PlacedIn es (place bs es)
  unfolding place
  place-PlacedIn [] = tt
  place-PlacedIn (e ∷ es) = elim (Bool-cases (ltb e.room (length bs + size_of_slot))) [
    | inl full ↦ rw (place_full bs e es full) (placed_behind e es (place bs es) (place-PlacedIn es))
    | inr free ↦ rw (place_free bs e es free) (
      (
        live e.records,
        live_records es,
        refl,
        ap (λ t. t ++ live_records es) (live-append e.records bs some_bytes)
            ∙ append_assoc (live e.records) (bs ∷ []) (live_records es),
      ),
      refl,
    )
  ]

  -- The chain after an insertion of a record that fits an empty page.
  pub insert_into-Extends :
      (new : ℕ) (e : Entry) (es : List Entry)
      → length bs + size_of_slot ≤ 8180
      → (rid : Rid) × ((insert_into new (e ∷ es) bs).1 ≡ some rid)
        × Extends bs (live_records (e ∷ es)) (live_records (insert_into new (e ∷ es) bs).0)
        × (length (insert_into new (e ∷ es) bs).0 ≤ length (e ∷ es) + 1)
        × (head_id (insert_into new (e ∷ es) bs).0 invalid_page_id ≡ e.id)
  unfolding new_page
  insert_into-Extends new e es fits = elim (Option-cases (place bs (e ∷ es))) [
    | inl none_yet ↦
        rw (insert_into_full new (e ∷ es) bs none_yet, le→ltb 8180 (length bs + size_of_slot) fits)
          (
            record { page_id = new; slot_id = 0 },
            refl,
            (
              live_records (e ∷ es),
              [],
              sym (append-nil (live_records (e ∷ es))),
              live_records-append (e ∷ es) (appended (blank new) bs)
                  ∙ ap (λ t. live_records (e ∷ es) ++ t) (live-append [] bs some_bytes),
            ),
            omega (arith, length-append (e ∷ es) (appended (blank new) bs ∷ [])),
            refl,
          )
    | inr ((fs, rid), placed) ↦
        let (extends, same) : PlacedIn (e ∷ es) (some (fs, rid)) =
          subst (PlacedIn (e ∷ es)) placed (place-PlacedIn (e ∷ es)) in
        rw (insert_into_placed new (e ∷ es) bs fs rid placed) (
          rid,
          refl,
          extends,
          omega (arith, same),
          (rw placed at (head_after bs (e ∷ es) invalid_page_id)),
        )
  ]
