-- ===== src/Access/HeapIterator/Loop.antt =====
-- A `for` loop over a heap file goes over the records of its chain, in order.
use cpp_relational_db.Base.{
  zero, suc, ℕ, ◌+◌, ◌^◌, ◌<◌, ◌≡◌, ◌==◌, ◌⊎◌, inl, inr, refl, ap, some, none, Option, List, [],
  ◌∷◌, true, false, arith, length, ne→==, ==_self,
}
use cpp_relational_db.Storage.Bytes.{Page}
use cpp_relational_db.Storage.Disk.{IDiskManager, KeepsPages, invalid_page_id}
use cpp_relational_db.Storage.SlottedPage.Contents.{live_record}
use cpp_relational_db.Storage.BufferManager.{BufferManager, returned}
use cpp_relational_db.Storage.BufferManager.Invariant.{Preserves}
use cpp_relational_db.Access.HeapFile.{HeapFile}
use cpp_relational_db.Access.HeapFile.Visit.{
  Ready, Settled, Settled-Ready, Settled-trans, Settled-refl,
}
use cpp_relational_db.Access.HeapFile.Chain.{Entry, head_id, Chain, Chain-Preserves}
use cpp_relational_db.Access.HeapIterator.{
  HeapIterator, end_of, begin, heap_iterator, advance, increment, equal_iterators, next_turn,
  each_record, for_each,
}
use cpp_relational_db.Access.HeapIterator.Live.{live_records, live_from}
use cpp_relational_db.Access.HeapIterator.Dereference.{dereference_lem, slot_after}
use cpp_relational_db.Access.HeapIterator.Advance.{Points, Reached, seek-Reached}

-- What a body comes to on a list of records.
abbrev pub run : {A R : Type 0} → (A → List ℕ → Option (R ⊎ A)) → A → List (List ℕ) → Option (R ⊎ A)
run body acc [] = some (inr acc)
run body acc (r ∷ rs) = elim (body acc r) [
  | none ↦ none
  | some (inl x) ↦ some (inl x)
  | some (inr acc') ↦ run body acc' rs
]

module _ {A R : Type 0} (body : A → List ℕ → Option (R ⊎ A)) (acc : A) (x : List ℕ)
    (xs : List (List ℕ)) where
  abbrev after_body : Option (R ⊎ A) → Option (R ⊎ A)
  after_body o = elim o [
    | none ↦ none
    | some (inl y) ↦ some (inl y)
    | some (inr acc') ↦ run body acc' xs
  ]

  pub run_stop : (y : R) → body acc x ≡ some (inl y) → run body acc (x ∷ xs) ≡ some (inl y)
  run_stop y h = ap after_body h

  pub run_go : (acc' : A) → body acc x ≡ some (inr acc') → run body acc (x ∷ xs) ≡ run body acc' xs
  run_go acc' h = ap after_body h

module _ {D : Type 0} (dm : IDiskManager D) {Stores : D → ℕ → Page → Type 0}
    (k : KeepsPages dm Stores) where
  proper_id : (p : ℕ) → p < 2 ^ 31 → (p == invalid_page_id) ≡ false
  proper_id p l = ne→== p invalid_page_id (λ q. omega (arith, q, l))

  module _ (turns : ℕ) where
    -- `begin` of a heap file whose pages hold a chain of entries is at the first record.
    pub begin-Reached :
        (b : BufferManager D) (heap : ℕ) (hf : HeapFile) (es : List Entry)
        → Ready b
        → Chain k b es invalid_page_id
        → length es < turns
        → hf.first_page_id ≡ head_id es invalid_page_id
        → (it : HeapIterator) × (b' : BufferManager D) × (begin dm turns heap hf b
            ≡ returned (some tt) (it, b'))
          × Reached dm k b heap es (live_records es) it b'
    unfolding begin heap_iterator advance
    begin-Reached b heap hf [] r c l first = (
      end_of heap,
      b,
      rw first,
      record {
        settled = Settled-refl k r;
        kept = λ p x h. h;
        pages = [];
        chain = tt;
        points = (refl, refl);
        fewer = omega arith;
        part = λ p w. w;
      },
    )
    begin-Reached b heap hf (e ∷ es) r c l first =
        let (it, b', eq, m) = seek-Reached dm k turns b heap (e ∷ es) 0 l r c tt in
        (it, b', rw (first, proper_id e.id c.0.is_id) eq, m)

  module _ {A R : Type 0} (body : A → List ℕ → Option (R ⊎ A)) (turns : ℕ) where
    abbrev Runs : ℕ → HeapIterator → BufferManager D → A → List (List ℕ) → Type 0
    Runs n it b acc ls =
        (b' : BufferManager D) × (each_record dm body turns n it b acc
          ≡ returned (run body acc ls) b')
        × Settled k b b'
        × Preserves Stores b b'

    -- A turn on a record `x`, with the loop on the rest.
    module _ (n : ℕ) (b : BufferManager D) (heap : ℕ) (e : Entry) (es : List Entry) (s : ℕ)
        (acc : A) (r : Ready b) (c : Chain k b (e ∷ es) invalid_page_id)
        (l : length (e ∷ es) < turns) (x : List ℕ) (h : live_record e.records s ≡ some x) where
      abbrev start : HeapIterator
      start = record { heap = heap; page = e.id; slot = s; has_next = true }

      increment_lem :
          (b₁ : BufferManager D)
          → Ready b₁
          → Chain k b₁ (e ∷ es) invalid_page_id
          → (it : HeapIterator) × (b₂ : BufferManager D) × (increment dm turns start b₁
              ≡ returned (some tt) (it, b₂))
            × Reached dm k b₁ heap (e ∷ es) (live_from (e ∷ es) (s + 1)) it b₂
      unfolding increment advance
      increment_lem b₁ r₁ c₁ =
          let same = slot_after dm k b heap e (head_id es invalid_page_id) s r c.0 x h in
          let (it, b₂, eq, m) = seek-Reached dm k turns b₁ heap (e ∷ es) (s + 1) l r₁ c₁ tt in
          (it, b₂, rw (same, eq), m)

      next_turn_lem :
          ((it : HeapIterator) (b₂ : BufferManager D) (acc' : A)
            → Reached dm k b heap (e ∷ es) (live_from (e ∷ es) (s + 1)) it b₂
            → (b' : BufferManager D) × (each_record dm body turns n it b₂ acc'
                ≡ returned (run body acc' (live_from (e ∷ es) (s + 1))) b')
              × Settled k b b'
              × Preserves Stores b b')
          → (b₁ : BufferManager D) → Settled k b b₁
          → Preserves Stores b b₁
          → (o : Option (R ⊎ A))
          → (b' : BufferManager D) × (next_turn dm body turns
                (each_record dm body turns n)
                start
                b₁
                o
              ≡ returned
                  (elim o [
                    | none ↦ none
                    | some (inl y) ↦ some (inl y)
                    | some (inr acc') ↦ run body acc' (live_from (e ∷ es) (s + 1))
                  ])
                  b')
            × Settled k b b'
            × Preserves Stores b b'
      unfolding next_turn
      next_turn_lem rest b₁ settled kept none = (b₁, refl, settled, kept)
      next_turn_lem rest b₁ settled kept (some (inl y)) = (b₁, refl, settled, kept)
      next_turn_lem rest b₁ settled kept (some (inr acc')) =
          let c₁ =
            Chain-Preserves k (λ p u. rw settled.akin.ids u) kept (e ∷ es) invalid_page_id c in
          let (it, b₂, eq, m) = increment_lem b₁ (Settled-Ready k settled r) c₁ in
          let (b', eq', t, t') = rest it b₂ acc' (record {
            settled = Settled-trans k settled m.settled;
            kept = λ p y held. m.kept p y (kept p y held);
            pages = m.pages;
            chain = m.chain;
            points = m.points;
            fewer = m.fewer;
            part = m.part;
          }) in
          (b', rw (eq) eq', t, t')

    at_end : (heap : ℕ) → equal_iterators (end_of heap) (end_of heap) ≡ true
    unfolding equal_iterators
    at_end heap = rw (==_self heap)

    not_at_end :
        (heap p s : ℕ)
        → p < 2 ^ 31
        → equal_iterators
            (record { heap = heap; page = p; slot = s; has_next = true })
            (end_of heap)
          ≡ false
    unfolding equal_iterators
    not_at_end heap p s l = rw (==_self heap, proper_id p l)

    each_record-run :
        (n : ℕ) (b : BufferManager D) (heap : ℕ) (es : List Entry) (it : HeapIterator) (acc : A)
        (ls : List (List ℕ))
        → Ready b
        → Chain k b es invalid_page_id
        → length es < turns
        → Points heap es it ls
        → length ls < n
        → (b' : BufferManager D) × (each_record dm body turns n it b acc
            ≡ returned (run body acc ls) b')
          × Settled k b b'
          × Preserves Stores b b'
    unfolding each_record
    each_record-run zero b heap es it acc ls r c l points m = absurd (omega (arith, m))
    each_record-run (suc n) b heap [] it acc ls r c l (e, none_left) m =
        (b, rw (e, none_left, at_end heap), Settled-refl k r, λ p x h. h)
    each_record-run (suc n) b heap (e ∷ es) it acc ls r c l (here, x, h, left) m =
        let s = it.slot in
        let (rec, b₁, eq, settled, kept, shows) =
          dereference_lem dm k b heap e (head_id es invalid_page_id) s r c.0 x h in
        let fewer : length (live_from (e ∷ es) (s + 1)) < n = omega (arith, m, ap length left) in
        let (b', eq', t, t') =
          next_turn_lem n b heap e es s acc r c l x h
            (λ it' b₂ acc' m'.
              let (b', eq', t, t') =
                each_record-run n b₂ heap m'.pages it' acc' (live_from (e ∷ es) (s + 1))
                  (Settled-Ready k m'.settled r) m'.chain (omega (arith, m'.fewer, l)) m'.points
                  fewer in
              (b', eq', Settled-trans k m'.settled t, λ p y held. t' p y (m'.kept p y held)))
            b₁ settled kept (body acc x) in
        (b', rw (here, left, not_at_end heap e.id s c.0.is_id, eq, shows) eq', t, t')

    -- On a valid pool over a disk that keeps pages, with an unpinned frame and room for a pin on
    -- every frame, a `for` loop from `begin` to `end` over a heap file whose pages hold a chain of
    -- entries, with more turns for `Advance` than pages and for itself than records, runs its body
    -- on the bytes of the records that are not deleted, page by page and in the order of their
    -- slots, up to the body's first `return`; every page keeps its contents, every frame its number
    -- of pins, and the pool stays valid.
    pub for_each-run :
        (n : ℕ) (b : BufferManager D) (heap : ℕ) (hf : HeapFile) (es : List Entry) (acc : A)
        → Ready b
        → Chain k b es invalid_page_id
        → length es < turns
        → hf.first_page_id ≡ head_id es invalid_page_id
        → length (live_records es) < n
        → (b' : BufferManager D) × (for_each dm body turns n heap hf b acc
            ≡ returned (run body acc (live_records es)) b')
          × Settled k b b'
          × Preserves Stores b b'
    unfolding for_each
    for_each-run n b heap hf es acc r c l first m =
        let (it, b₁, e₁, reached) = begin-Reached turns b heap hf es r c l first in
        let (b₂, e₂, t, t') =
          each_record-run n b₁ heap reached.pages it acc (live_records es)
            (Settled-Ready k reached.settled r) reached.chain (omega (arith, reached.fewer, l))
            reached.points m in
        (
          b₂,
          rw (e₁) e₂,
          Settled-trans k reached.settled t,
          λ p y held. t' p y (reached.kept p y held),
        )
