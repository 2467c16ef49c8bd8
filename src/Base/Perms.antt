-- ===== src/Base/Perms.antt =====
-- Filters of lists that are permutations of one another.
use Prim.Native.Nat.{suc}
use native.Mathlib.Nat.{ℕ_set}
use native.Mathlib.Omega.{arith}
use mathlib.Core.Path.{◌≡◌, ◌∙◌, ap, subst}
use mathlib.Core.Logic.{inl, inr, ∥∥₁_elim, ∥∥₁_prop}
use mathlib.Core.Bool.{Bool}
use mathlib.Core.List.{List, [], ◌∷◌, ◌++◌, Perm, Permᴰ}
use mathlib.Core.List.Perm
use mathlib.Core.Path.{refl}
use cpp_relational_db.Base.Tests.{Bool-cases}
use cpp_relational_db.Base.Lists.{filter, length}

module _ {A : Type 0} (p : A → Bool) where
  pub filter-append : (xs ys : List A) → filter p (xs ++ ys) ≡ filter p xs ++ filter p ys
  filter-append [] ys = refl
  filter-append (x ∷ xs) ys = elim (Bool-cases (p x)) [
    | inl h ↦ rw h (ap (λ t. x ∷ t) (filter-append xs ys))
    | inr h ↦ rw h (filter-append xs ys)
  ]

  pub filter-Permᴰ : {xs ys : List A} → Permᴰ xs ys → Perm (filter p xs) (filter p ys)
  filter-Permᴰ Permᴰ.nil = Perm.nil
  filter-Permᴰ (Permᴰ.cons {a} {b} {l₁} {l₂} e d) =
      let rest = filter-Permᴰ d in
      subst (λ z. Perm (filter p (a ∷ l₁)) (filter p (z ∷ l₂))) e
        (elim (Bool-cases (p a)) [ inl h ↦ rw h (Perm.cons a rest) | inr h ↦ rw h rest ])
  filter-Permᴰ (Permᴰ.swap {a} {b} {a'} {b'} {l} e e') =
      subst (λ z. Perm (filter p (a ∷ b ∷ l)) (filter p (a' ∷ z ∷ l))) e
        (subst (λ z. Perm (filter p (a ∷ b ∷ l)) (filter p (z ∷ a ∷ l))) e'
          (elim (Bool-cases (p a)) [
            | inl h ↦ elim (Bool-cases (p b)) [
              | inl h' ↦ rw (h, h') (Perm.swap b a (filter p l))
              | inr h' ↦ rw (h, h') (Perm.refl _)
            ]
            | inr h ↦ rw h (Perm.refl _)
          ]))
  filter-Permᴰ (Permᴰ.trans d d') = Perm.trans (filter-Permᴰ d) (filter-Permᴰ d')

  pub filter-Perm : {xs ys : List A} → Perm xs ys → Perm (filter p xs) (filter p ys)
  filter-Perm d = ∥∥₁_elim d ∥∥₁_prop (λ e. filter-Permᴰ e)

length-Permᴰ : {A : Type 0} {xs ys : List A} → Permᴰ xs ys → length xs ≡ length ys
length-Permᴰ Permᴰ.nil = refl
length-Permᴰ (Permᴰ.cons e d) = ap suc (length-Permᴰ d)
length-Permᴰ (Permᴰ.swap e e') = refl
length-Permᴰ (Permᴰ.trans d d') = length-Permᴰ d ∙ length-Permᴰ d'

pub length-Perm : {A : Type 0} {xs ys : List A} → Perm xs ys → length xs ≡ length ys
length-Perm p = ∥∥₁_elim p (ℕ_set _ _) length-Permᴰ

empty_lem : {A : Type 0} (xs : List A) → length xs ≡ 0 → xs ≡ []
empty_lem [] h = refl
empty_lem (x ∷ xs) h = absurd (omega (arith, h))

pub singleton_Permᴰ :
    {A : Type 0} {xs ys : List A} (y : A) → Permᴰ xs ys → ys ≡ y ∷ [] → xs ≡ y ∷ []
singleton_Permᴰ y Permᴰ.nil h = h
singleton_Permᴰ y (Permᴰ.cons {a} {b} {l₁} {l₂} e d) h =
    let rest : l₂ ≡ [] = cc in
    let none_left : l₁ ≡ [] = empty_lem l₁ (length-Permᴰ d ∙ ap length rest) in
    let head : a ≡ y = cc in ap (λ t. a ∷ t) none_left ∙ ap (λ z. z ∷ []) head
singleton_Permᴰ y (Permᴰ.swap e e') h = cc
singleton_Permᴰ y (Permᴰ.trans d d') h = singleton_Permᴰ y d (singleton_Permᴰ y d' h)
