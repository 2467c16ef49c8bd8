-- ===== src/Server/Names.antt =====
-- The names of databases, and the cache without one.
use cpp_relational_db.Base.{
  ℕ, ◌==◌, ◌≡◌, ◌∙◌, inl, inr, refl, sym, ap, true, false, List, [], ◌∷◌, none, if◌then◌else◌,
  ==→eq, Bool-cases,
}
use cpp_relational_db.Catalog.CatalogTables.{same_text}
use cpp_relational_db.Catalog.CatalogTables.Lookup.{same_text_self}
use cpp_relational_db.Server.{find, erase}

pub same_text_eq : (xs ys : List ℕ) → same_text xs ys ≡ true → xs ≡ ys
same_text_eq [] [] e = refl
same_text_eq [] (y ∷ ys) e = let no : false ≡ true = e in cc
same_text_eq (x ∷ xs) [] e = let no : false ≡ true = e in cc
same_text_eq (x ∷ xs) (y ∷ ys) e = elim (Bool-cases (x == y)) [
  | inl is ↦
      let rest : same_text xs ys ≡ true = rw is at e in
      let heads = ==→eq x y is in let tails = same_text_eq xs ys rest in cc
  | inr isnt ↦ let no : false ≡ true = rw isnt at e in cc
]

other : (xs ys : List ℕ) → same_text xs ys ≡ false → same_text ys xs ≡ false
other xs ys ne = elim (Bool-cases (same_text ys xs)) [
  | inl is ↦
      let no : true ≡ false =
        sym (same_text_self xs) ∙ ap (same_text xs) (sym (same_text_eq ys xs is)) ∙ ne in
      cc
  | inr isnt ↦ isnt
]

pub find-erase :
    {D : Type 0} (es : List (List ℕ × D)) (name q : List ℕ)
    → find (erase es name) q ≡ (if same_text name q then none else find es q)
find-erase [] name q = elim (Bool-cases (same_text name q)) [ inl is ↦ rw is | inr isnt ↦ rw isnt ]
find-erase (e ∷ es) name q = elim (Bool-cases (same_text e.0 name)) [
  | inl is ↦
      let same : same_text e.0 q ≡ same_text name q =
        ap (λ x. same_text x q) (same_text_eq e.0 name is) in
      rw is (
        find-erase es name q ∙ elim (Bool-cases (same_text name q)) [
          | inl here ↦ rw here refl
          | inr there ↦ rw (same, there) refl
        ])
  | inr isnt ↦ rw isnt (elim (Bool-cases (same_text e.0 q)) [
    | inl here ↦
        let apart : same_text name q ≡ false =
          ap (same_text name) (sym (same_text_eq e.0 q here)) ∙ other e.0 name isnt in
        rw (here, apart) refl
    | inr there ↦ rw there (find-erase es name q)
  ])
]
