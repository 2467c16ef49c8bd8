-- ===== src/Base/Lists.antt =====
-- Lists measured and indexed by native numbers, under the library's names, and lists tabulated
-- from a function, which is how a range of memory is read.
use Prim.Native.Nat.{ℕ, zero, suc, ◌+◌, ◌≤◌, ◌<◌}
use mathlib.Core.Path.{◌∙◌, ◌≡◌, refl, sym, ap, ap₂}
use mathlib.Core.Logic.{◌≢◌}
use mathlib.Core.List.{map, List, [], ◌∷◌, ◌++◌, append_assoc, append-nil}
use mathlib.Core.Bool.{Bool, false, ◌&&◌, ◌||◌}
use mathlib.Core.Option.{Option, none, some}
use native.Mathlib.Omega.{arith}
use cpp_relational_db.Base.Tests.{◌==◌, ltb, if◌then◌else◌}

module _ {ℓ} {A : Type ℓ} where
  abbrev pub length : List A → ℕ
  length [] = 0
  length (x ∷ xs) = suc (length xs)

  abbrev pub get_elem? : List A → ℕ → Option A
  get_elem? [] i = none
  get_elem? (x ∷ xs) zero = some x
  get_elem? (x ∷ xs) (suc i) = get_elem? xs i

  abbrev pub get_or : List A → ℕ → A → A
  get_or [] i d = d
  get_or (x ∷ xs) zero d = x
  get_or (x ∷ xs) (suc i) d = get_or xs i d

  -- A write out of bounds changes nothing.
  abbrev pub set : List A → ℕ → A → List A
  set [] i v = []
  set (x ∷ xs) zero v = v ∷ xs
  set (x ∷ xs) (suc i) v = x ∷ set xs i v

  abbrev pub take : ℕ → List A → List A
  take zero xs = []
  take (suc n) [] = []
  take (suc n) (x ∷ xs) = x ∷ take n xs

  abbrev pub drop : ℕ → List A → List A
  drop zero xs = xs
  drop (suc n) [] = []
  drop (suc n) (x ∷ xs) = drop n xs

  abbrev pub replicate : ℕ → A → List A
  replicate zero a = []
  replicate (suc n) a = a ∷ replicate n a

  abbrev pub filter : (A → Bool) → List A → List A
  filter p [] = []
  filter p (x ∷ xs) = if p x then x ∷ filter p xs else filter p xs

  -- f 0, …, f (n - 1)
  abbrev pub tabulate : (ℕ → A) → ℕ → List A
  tabulate f zero = []
  tabulate f (suc n) = f 0 ∷ tabulate (λ i. f (suc i)) n

  pub length-append : (xs ys : List A) → length (xs ++ ys) ≡ length xs + length ys
  length-append [] ys = omega arith
  length-append (x ∷ xs) ys = omega (arith, length-append xs ys)

  pub length-replicate : (n : ℕ) (a : A) → length (replicate n a) ≡ n
  length-replicate zero a = refl
  length-replicate (suc n) a = ap suc (length-replicate n a)

  pub length-take_le : (n : ℕ) (xs : List A) → length (take n xs) ≤ length xs
  length-take_le zero xs = omega arith
  length-take_le (suc n) [] = omega arith
  length-take_le (suc n) (x ∷ xs) = omega (arith, length-take_le n xs)

  pub length-filter_le : (p : A → Bool) (xs : List A) → length (filter p xs) ≤ length xs
  length-filter_le p [] = omega arith
  length-filter_le p (x ∷ xs) = ground (arith, length-filter_le p xs)

  pub length-set : (xs : List A) (i : ℕ) (v : A) → length (set xs i v) ≡ length xs
  length-set [] i v = refl
  length-set (x ∷ xs) zero v = refl
  length-set (x ∷ xs) (suc i) v = ap suc (length-set xs i v)

  pub get_or-set_self :
      (xs : List A) (i : ℕ) (v d : A) → i < length xs → get_or (set xs i v) i d ≡ v
  get_or-set_self [] i v d h = elim h [ ]
  get_or-set_self (x ∷ xs) zero v d h = refl
  get_or-set_self (x ∷ xs) (suc i) v d h = get_or-set_self xs i v d (omega arith)

  pub get_or-set_ne :
      (xs : List A) (i j : ℕ) (v d : A) → i ≢ j → get_or (set xs i v) j d ≡ get_or xs j d
  get_or-set_ne [] i j v d h = refl
  get_or-set_ne (x ∷ xs) zero zero v d h = absurd (h refl)
  get_or-set_ne (x ∷ xs) zero (suc j) v d h = refl
  get_or-set_ne (x ∷ xs) (suc i) zero v d h = refl
  get_or-set_ne (x ∷ xs) (suc i) (suc j) v d h = get_or-set_ne xs i j v d (λ e. h (ap suc e))

  pub get_or-set :
      (xs : List A) (i j : ℕ) (v d : A)
      → get_or (set xs i v) j d ≡ (if (j == i) && ltb i (length xs) then v else get_or xs j d)
  get_or-set [] i j v d = ground arith
  get_or-set (x ∷ xs) zero zero v d = ground arith
  get_or-set (x ∷ xs) zero (suc j) v d = ground arith
  get_or-set (x ∷ xs) (suc i) zero v d = ground arith
  get_or-set (x ∷ xs) (suc i) (suc j) v d = ground (arith, get_or-set xs i j v d)

  pub set-get_or : (xs : List A) (i : ℕ) (d : A) → set xs i (get_or xs i d) ≡ xs
  set-get_or [] i d = refl
  set-get_or (x ∷ xs) zero d = refl
  set-get_or (x ∷ xs) (suc i) d = ap (λ t. x ∷ t) (set-get_or xs i d)

  pub set-set : (xs : List A) (i : ℕ) (v w : A) → set (set xs i v) i w ≡ set xs i w
  set-set [] i v w = refl
  set-set (x ∷ xs) zero v w = refl
  set-set (x ∷ xs) (suc i) v w = ap (λ t. x ∷ t) (set-set xs i v w)

  pub set_modify :
      (xs : List A) (i : ℕ) (v d : A) (g : A → A)
      → i < length xs
      → set (set xs i v) i (g (get_or (set xs i v) i d)) ≡ set xs i (g v)
  set_modify xs i v d g h = set-set xs i v _ ∙ ap (λ w. set xs i (g w)) (get_or-set_self xs i v d h)

  pub length-tabulate : (f : ℕ → A) (n : ℕ) → length (tabulate f n) ≡ n
  length-tabulate f zero = refl
  length-tabulate f (suc n) = ap suc (length-tabulate (λ i. f (suc i)) n)

  pub tabulate-congr :
      (f g : ℕ → A) (n : ℕ) → ((i : ℕ) → i < n → f i ≡ g i) → tabulate f n ≡ tabulate g n
  tabulate-congr f g zero h = refl
  tabulate-congr f g (suc n) h =
      ap₂ ◌∷◌ (h 0 (omega arith))
        (tabulate-congr (λ i. f (suc i)) (λ i. g (suc i)) n (λ i l. h (suc i) (omega arith)))

  pub tabulate-suc : (f : ℕ → A) (n : ℕ) → tabulate f (suc n) ≡ tabulate f n ++ f n ∷ []
  tabulate-suc f zero = refl
  tabulate-suc f (suc n) = ap (λ t. f 0 ∷ t) (tabulate-suc (λ i. f (suc i)) n)

  pub tabulate-get_or : (xs : List A) (d : A) → tabulate (λ i. get_or xs i d) (length xs) ≡ xs
  tabulate-get_or [] d = refl
  tabulate-get_or (x ∷ xs) d = ap (λ t. x ∷ t) (tabulate-get_or xs d)

  pub get_elem?-tabulate : (f : ℕ → A) (n i : ℕ) → i < n → get_elem? (tabulate f n) i ≡ some (f i)
  get_elem?-tabulate f zero i h = elim h [ ]
  get_elem?-tabulate f (suc n) zero h = refl
  get_elem?-tabulate f (suc n) (suc i) h = get_elem?-tabulate (λ j. f (suc j)) n i (omega arith)

  pub get_or-tabulate : (f : ℕ → A) (n i : ℕ) (d : A) → i < n → get_or (tabulate f n) i d ≡ f i
  get_or-tabulate f zero i d h = elim h [ ]
  get_or-tabulate f (suc n) zero d h = refl
  get_or-tabulate f (suc n) (suc i) d h = get_or-tabulate (λ j. f (suc j)) n i d (omega arith)

  pub get_elem?_above : (xs : List A) (i : ℕ) → length xs ≤ i → get_elem? xs i ≡ none
  get_elem?_above [] i h = refl
  get_elem?_above (x ∷ xs) zero h = absurd (omega arith)
  get_elem?_above (x ∷ xs) (suc i) h = get_elem?_above xs i (omega arith)

  -- A list that differs from a tabulated one at `k` at most.
  pub tabulate-set :
      (f g : ℕ → A) (n k : ℕ) (v : A)
      → (k < n → g k ≡ v)
      → ((i : ℕ) → i < n → i ≢ k → g i ≡ f i)
      → tabulate g n ≡ set (tabulate f n) k v
  tabulate-set f g zero k v at off = refl
  tabulate-set f g (suc n) zero v at off = ap₂ ◌∷◌ (at (omega arith)) (
      tabulate-congr (λ i. g (suc i)) (λ i. f (suc i)) n
        (λ i l. off (suc i) (omega arith) (omega arith)))
  tabulate-set f g (suc n) (suc k) v at off = ap₂ ◌∷◌ (off 0 (omega arith) (omega arith)) (
      tabulate-set (λ i. f (suc i)) (λ i. g (suc i)) n k v (λ l. at (omega arith))
        (λ i l ne. off (suc i) (omega arith) (omega arith)))

pub length-map_le {ℓ κ} :
    {A : Type ℓ} {B : Type κ} (f : A → B) (xs : List A) → length (map f xs) ≤ length xs
length-map_le f [] = omega arith
length-map_le f (x ∷ xs) = omega (arith, length-map_le f xs)

-- `bs` is the part of `xs` that starts at `i`.
module _ {ℓ} {A : Type ℓ} where
  abbrev pub Sits : List A → ℕ → List A → Type ℓ
  Sits xs i bs = (pre : List A) × (post : List A) × (xs ≡ pre ++ (bs ++ post)) × (length pre ≡ i)

  take-append : (xs ys : List A) → take (length xs) (xs ++ ys) ≡ xs
  take-append [] ys = refl
  take-append (x ∷ xs) ys = ap (λ t. x ∷ t) (take-append xs ys)

  drop-append : (xs ys : List A) → drop (length xs) (xs ++ ys) ≡ ys
  drop-append [] ys = refl
  drop-append (x ∷ xs) ys = drop-append xs ys

  pub Sits-append : (xs ys : List A) (i : ℕ) (bs : List A) → Sits xs i bs → Sits (xs ++ ys) i bs
  Sits-append xs ys i bs (pre, post, e, l) =
      (pre, post ++ ys, rw (e, append_assoc pre (bs ++ post) ys, append_assoc bs post ys), l)

  -- What a buffer is extended by sits at its old end.
  pub Sits-end : (xs bs : List A) → Sits (xs ++ bs) (length xs) bs
  Sits-end xs bs = (xs, [], ap (λ t. xs ++ t) (sym (append-nil bs)), refl)

  pub take-Sits :
      (xs : List A) (i : ℕ) (bs : List A) → Sits xs i bs → take (length bs) (drop i xs) ≡ bs
  take-Sits xs i bs (pre, post, e, l) =
      rw (e, ← l, drop-append pre (bs ++ post), take-append bs post)

  pub length-Sits : (xs : List A) (i : ℕ) (bs : List A) → Sits xs i bs → i + length bs ≤ length xs
  length-Sits xs i bs (pre, post, e, l) =
      rw (e) (omega (arith, l, length-append pre (bs ++ post), length-append bs post))

-- Lists of numbers without repetition.
abbrev pub has : List ℕ → ℕ → Bool
has [] a = false
has (x ∷ xs) a = x == a || has xs a

abbrev pub NoDup : List ℕ → Type 0
NoDup [] = Unit {0}
NoDup (x ∷ xs) = (has xs x ≡ false) × NoDup xs

pub map-append :
    {A B : Type 0} (f : A → B) (xs ys : List A) → map f (xs ++ ys) ≡ map f xs ++ map f ys
map-append f [] ys = refl
map-append f (x ∷ xs) ys = ap (λ t. f x ∷ t) (map-append f xs ys)

-- A list of images that is cut in two is the images of a list that is cut in two.
pub map_split :
    {A B : Type 0} (f : A → B) (rows : List A) (xs ys : List B)
    → map f rows ≡ xs ++ ys
    → (r₁ : List A) × (r₂ : List A) × (rows ≡ r₁ ++ r₂) × (xs ≡ map f r₁) × (ys ≡ map f r₂)
map_split f rows [] ys h = ([], rows, refl, refl, sym h)
map_split f [] (x ∷ xs) ys h = cc
map_split f (r ∷ rows) (x ∷ xs) ys h =
    let tail : map f rows ≡ xs ++ ys = cc in
    let head : x ≡ f r = cc in
    let (r₁, r₂, p, q, s) = map_split f rows xs ys tail in
    (r ∷ r₁, r₂, ap (λ t. r ∷ t) p, ap (λ t. x ∷ t) q ∙ ap (λ y. y ∷ map f r₁) head, s)
