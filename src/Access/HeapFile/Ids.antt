-- ===== src/Access/HeapFile/Ids.antt =====
-- The page ids that `AllocatePage` gives out, and those that are in use.
use cpp_relational_db.Base.{
  ℕ, ◌+◌, ◌^◌, ◌<◌, ◌≤◌, ◌≡◌, refl, sym, ◌∙◌, List, [], ◌∷◌, true, false, arith, has, NoDup,
}
use cpp_relational_db.Storage.Disk.{PageIds, take_id}

-- An id that was given out and not given back.
abbrev pub InUse : PageIds → ℕ → Type 0
InUse s p = (p < s.next) × (has s.free p ≡ false)

-- The ids that were given back were given out before, and each was given back once; the ids do
-- not run out with the next one.
pub record IsSound (s : PageIds) : Type 0 where
  pub given : (p : ℕ) → has s.free p ≡ true → p < s.next
  pub once : NoDup s.free
  pub left : s.next < 2 ^ 31

-- What the next id is like: it was not in use, it is then, and every other id stays as it was.
pub record Fresh (s : PageIds) (t : PageIds) (id : ℕ) : Type 0 where
  pub is_id : id < 2 ^ 31
  pub unused : ¬ InUse s id
  pub used : InUse t id
  pub kept : (p : ℕ) → InUse s p → InUse t p

has_head : (x p : ℕ) (xs : List ℕ) → has (x ∷ xs) p ≡ false → has xs p ≡ false
has_head x p xs h = ground arith

has_self : (x : ℕ) (xs : List ℕ) → has (x ∷ xs) x ≡ true
has_self x xs = ground arith

has_tail : (x p : ℕ) (xs : List ℕ) → has xs p ≡ true → has (x ∷ xs) p ≡ true
has_tail x p xs h = ground arith

pub take_id-Fresh : (s : PageIds) → IsSound s → Fresh s (take_id s).0 (take_id s).1
unfolding take_id
take_id-Fresh s v = go s.free s.next v
  where
    go :
        (l : List ℕ) (n : ℕ)
        → IsSound (record { free = l; next = n })
        → Fresh
            (record { free = l; next = n })
            (take_id (record { free = l; next = n })).0
            (take_id (record { free = l; next = n })).1
    go [] n v = record {
      is_id = v.left;
      unused = λ (h, _). omega (arith, h);
      used = (omega (arith, v.left), refl);
      kept = λ p (h, m). (omega (arith, v.left, h), m);
    }
    go (x ∷ xs) n v =
        let within : x < n = v.given x (has_self x xs) in
        record {
          is_id = omega (arith, v.left, within);
          unused = λ (_, m). let h = sym m ∙ has_self x xs in cc;
          used = (within, v.once.0);
          kept = λ p (h, m). (h, has_head x p xs m);
        }

-- What the ids are like after at most `n` were given out.
pub record Grown (n : ℕ) (s : PageIds) (t : PageIds) : Type 0 where
  pub more : (p : ℕ) → InUse s p → InUse t p
  pub sound : IsSound s → s.next + n < 2 ^ 31 → IsSound t
  pub next : t.next ≤ s.next + n

pub Grown-refl : {s : PageIds} → Grown 0 s s
Grown-refl {s} = record { more = λ p u. u; sound = λ v l. v; next = omega arith }

pub Grown-trans : {m n : ℕ} {s t u : PageIds} → Grown m s t → Grown n t u → Grown (m + n) s u
Grown-trans {m} {n} {s} {t} {u} g h = record {
  more = λ p i. h.more p (g.more p i);
  sound = λ v l. h.sound (g.sound v (omega (arith, l))) (omega (arith, l, g.next));
  next = omega (arith, g.next, h.next);
}

pub Grown-weaken : {m n : ℕ} {s t : PageIds} → m ≤ n → Grown m s t → Grown n s t
Grown-weaken {m} {n} {s} {t} l g = record {
  more = g.more;
  sound = λ v h. g.sound v (omega (arith, l, h));
  next = omega (arith, l, g.next);
}

-- The ids stay sound while one is left.
pub take_id-IsSound : (s : PageIds) → IsSound s → s.next + 1 < 2 ^ 31 → IsSound (take_id s).0
unfolding take_id
take_id-IsSound s v l = go s.free s.next v l
  where
    go :
        (f : List ℕ) (n : ℕ)
        → IsSound (record { free = f; next = n })
        → n + 1 < 2 ^ 31
        → IsSound (take_id (record { free = f; next = n })).0
    go [] n v l = record {
      given = λ p h. omega (arith, l, v.given p h);
      once = tt;
      left = omega (arith, l);
    }
    go (x ∷ xs) n v l = record {
      given = λ p h. v.given p (has_tail x p xs h);
      once = v.once.1;
      left = v.left;
    }

pub take_id-Grown : (s : PageIds) → IsSound s → Grown 1 s (take_id s).0
unfolding take_id
take_id-Grown s v = record {
  more = (take_id-Fresh s v).kept;
  sound = λ v' l. take_id-IsSound s v' l;
  next = next_le s.free s.next;
}
  where
    next_le : (f : List ℕ) (n : ℕ) → (take_id (record { free = f; next = n })).0.next ≤ n + 1
    next_le [] n = omega arith
    next_le (x ∷ xs) n = omega arith
