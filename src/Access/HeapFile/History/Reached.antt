-- ===== src/Access/HeapFile/History/Reached.antt =====
-- Every history of a heap file keeps its pages well-formed, and a record that is read is the last that
-- was written under its id.
use mathlib.Core.Option
use cpp_relational_db.Base.{
  suc, ℕ, ◌+◌, ◌^◌, ◌<◌, ◌≡◌, inl, inr, ◌==◌, Bool, true, false, refl, subst, [], ◌∷◌, Option, none,
  some, Bool-cases, arith,
}
use cpp_relational_db.Storage.Bytes.{Page}
use cpp_relational_db.Storage.Disk.{IDiskManager, KeepsPages, IsPageId, invalid_page_id}
use cpp_relational_db.Storage.BufferManager.{BufferManager, returned}
use cpp_relational_db.Access.HeapFile.{Rid, Record, shown, HeapFile, insert, get, update, delete}
use cpp_relational_db.Access.HeapFile.Ids.{IsSound, Grown-refl}
use cpp_relational_db.Access.HeapFile.Visit.{Ready}
use cpp_relational_db.Access.HeapFile.Chain.{Chain}
use cpp_relational_db.Access.HeapFile.Shape.{blank}
use cpp_relational_db.Access.HeapFile.View.{view}
use cpp_relational_db.Access.HeapFile.History.{
  History, value, OnPage, Step, inserted, not_inserted, updated, not_updated, deleted, not_deleted,
  got, Reach, start, next, Call, inserting, updating, deleting, getting,
}
use cpp_relational_db.Access.HeapFile.History.Insertions.{
  logged, logged_if, HoldsMap, insert-HoldsMap,
}
use cpp_relational_db.Access.HeapFile.History.Operations.{
  update-HoldsMap, delete-HoldsMap, get-HoldsMap,
}

module _ {D : Type 0} (dm : IDiskManager D) {Stores : D → ℕ → Page → Type 0}
    (k : KeepsPages dm Stores) (turns : ℕ) (hf : HeapFile) (b₀ : BufferManager D)
    (sound : IsSound (k.ids b₀.disk)) where
  -- What a call returns is what it returned.
  moved :
      {A : Type 0} (n : ℕ) (f : A → History) {a a' : A} {b b' : BufferManager D}
      → a ≡ a'
      → b ≡ b'
      → HoldsMap dm k turns hf b₀ sound (suc n) b (f a)
      → HoldsMap dm k turns hf b₀ sound (suc n) b' (f a')
  moved n f {a} {a'} {b} {b'} p q h =
      subst (λ c. HoldsMap dm k turns hf b₀ sound (suc n) c (f a')) q
        (subst (λ x. HoldsMap dm k turns hf b₀ sound (suc n) b (f x)) p h)

  Step-HoldsMap :
      (n : ℕ) (b b' : BufferManager D) (l l' : History)
      → (k.ids b₀.disk).next + n < 2 ^ 31
      → 1 + n < turns
      → HoldsMap dm k turns hf b₀ sound n b l
      → Step dm turns hf b l b' l'
      → HoldsMap dm k turns hf b₀ sound (suc n) b' l'
  Step-HoldsMap n b b' l l' left enough h (inserted bs rid small e) =
      let (o, b₁, eq, g, _) = insert-HoldsMap dm k turns hf b₀ sound n b l h bs small left enough in
      let same : b₁ ≡ b' = cc in
      let is : o ≡ some rid = cc in moved n (λ q. logged q bs l) is same g
  Step-HoldsMap n b b' l l' left enough h (not_inserted bs small e) =
      let (o, b₁, eq, g, _) = insert-HoldsMap dm k turns hf b₀ sound n b l h bs small left enough in
      let same : b₁ ≡ b' = cc in let is : o ≡ none = cc in moved n (λ q. logged q bs l) is same g
  Step-HoldsMap n b b' l l' left enough h (updated rid bs w e) =
      let (t, b₁, eq, g) = update-HoldsMap dm k turns hf b₀ sound n b l h rid (h.given rid w) bs in
      let same : b₁ ≡ b' = cc in
      let is : t ≡ true = cc in moved n (λ q. logged_if q rid bs l) is same g
  Step-HoldsMap n b b' l l' left enough h (not_updated rid bs w e) =
      let (t, b₁, eq, g) = update-HoldsMap dm k turns hf b₀ sound n b l h rid (h.given rid w) bs in
      let same : b₁ ≡ b' = cc in
      let is : t ≡ false = cc in moved n (λ q. logged_if q rid bs l) is same g
  Step-HoldsMap n b b' l l' left enough h (deleted rid w e) =
      let (t, b₁, eq, g) = delete-HoldsMap dm k turns hf b₀ sound n b l h rid (h.given rid w) in
      let same : b₁ ≡ b' = cc in
      let is : t ≡ true = cc in moved n (λ q. logged_if q rid [] l) is same g
  Step-HoldsMap n b b' l l' left enough h (not_deleted rid w e) =
      let (t, b₁, eq, g) = delete-HoldsMap dm k turns hf b₀ sound n b l h rid (h.given rid w) in
      let same : b₁ ≡ b' = cc in
      let is : t ≡ false = cc in moved n (λ q. logged_if q rid [] l) is same g
  Step-HoldsMap n b b' l l' left enough h (got rid r w e) =
      let (o, b₁, eq, shows, g) = get-HoldsMap dm k turns hf b₀ sound n b l h rid (h.given rid w) in
      let same : b₁ ≡ b' = cc in subst (λ c. HoldsMap dm k turns hf b₀ sound (suc n) c l) same g

  module _ (ready : Ready b₀) (id : ℕ) (first : hf.first_page_id ≡ id) (is_id : IsPageId id)
      (c : Chain k b₀ (blank id ∷ []) invalid_page_id) where
    empty_map : (r : Rid) → view (blank id ∷ []) r ≡ none
    unfolding Option.bind
    empty_map r = elim (Bool-cases (id == r.page_id)) [
      | inl here ↦ rw here refl
      | inr there ↦ rw there refl
    ]

    pub start-HoldsMap : HoldsMap dm k turns hf b₀ sound 0 b₀ []
    start-HoldsMap = record {
      pages = blank id ∷ [];
      ready = ready;
      grown = Grown-refl;
      proper = rw first is_id;
      first = first;
      chain = c;
      few = omega arith;
      map = empty_map;
      given = λ r w. absurd w;
    }

    -- On a valid pool over a disk that keeps pages, with an unpinned frame and room for a pin on
    -- every frame, and a heap file whose chain is one empty page: after any sequence of `n` calls
    -- of `Insert`, of records shorter than 2 ^ 64 - 4 bytes, and of `Get`, `Update` and `Delete`,
    -- of ids on pages from which `Insert` gave an id out, with more turns than calls and page ids
    -- left for as many, the pool is valid, with an unpinned frame and room for a pin on every
    -- frame, the heap file's pages are a chain of valid slotted pages, at most `n` more than
    -- before, and the records that they hold are the map which the history leaves.
    pub Reach-HoldsMap :
        {n : ℕ} {b : BufferManager D} {l : History}
        → Reach dm turns hf b₀ n b l
        → (k.ids b₀.disk).next + n < 2 ^ 31
        → n < turns
        → HoldsMap dm k turns hf b₀ sound n b l
    Reach-HoldsMap start left enough = start-HoldsMap
    Reach-HoldsMap (next {n} {b} {b'} {l} {l'} r s) left enough =
        Step-HoldsMap n b b' l l' (omega (arith, left)) (omega (arith, enough))
          (Reach-HoldsMap r (omega (arith, left)) (omega (arith, enough))) s

    -- After such a sequence of calls, `Get` of an id on a page from which `Insert` gave an id out
    -- returns the record that was last written under the id, and nothing when none was, or one of
    -- no bytes, or when it was deleted.
    pub Reach-get :
        (n : ℕ) (b : BufferManager D) (l : History) (rid : Rid)
        → Reach dm turns hf b₀ n b l
        → (k.ids b₀.disk).next + n < 2 ^ 31
        → n < turns
        → OnPage rid l
        → (o : Option Record) × (b' : BufferManager D) × (get dm b rid ≡ returned o b')
          × (Option.map (shown b') o ≡ value l rid)
    Reach-get n b l rid r left enough w =
        let h = Reach-HoldsMap r left enough in
        let (o, b', eq, shows, g) =
          get-HoldsMap dm k turns hf b₀ sound n b l h rid (h.given rid w) in
        (o, b', eq, shows)

    -- What a call returns, with the step that it is.
    abbrev Returns : (b : BufferManager D) (l : History) → Call l → Type 0
    Returns b l (inserting bs small) =
        (o : Option Rid) × (b' : BufferManager D) × (insert dm turns hf b bs
          ≡ returned (some o) (hf, b'))
        × Step dm turns hf b l b' (logged o bs l)
    Returns b l (updating rid bs w) =
        (t : Bool) × (b' : BufferManager D) × (update dm b bs rid ≡ returned t b')
        × Step dm turns hf b l b' (logged_if t rid bs l)
    Returns b l (deleting rid w) =
        (t : Bool) × (b' : BufferManager D) × (delete dm b rid ≡ returned t b')
        × Step dm turns hf b l b' (logged_if t rid [] l)
    Returns b l (getting rid w) =
        (o : Option Record) × (b' : BufferManager D) × (get dm b rid ≡ returned o b')
        × Step dm turns hf b l b' l

    -- After such a sequence of calls, the empty one included, with turns for one more, every
    -- operation returns: `Insert` of any record shorter than 2 ^ 64 - 4 bytes, and `Update`, `Delete`
    -- and `Get` of an id on a page from which `Insert` gave an id out, and what it did is one more
    -- step.
    pub Reach-Step :
        (n : ℕ) (b : BufferManager D) (l : History) (call : Call l)
        → Reach dm turns hf b₀ n b l
        → (k.ids b₀.disk).next + n < 2 ^ 31
        → 1 + n < turns
        → Returns b l call
    Reach-Step n b l (inserting bs small) r left enough =
        let h = Reach-HoldsMap r left (omega (arith, enough)) in
        let (o, b', e, g, _) =
          insert-HoldsMap dm k turns hf b₀ sound n b l h bs small left enough in
        (o, b', e, step_of o b' e)
      where
        step_of :
            (o : Option Rid) (b' : BufferManager D)
            → insert dm turns hf b bs ≡ returned (some o) (hf, b')
            → Step dm turns hf b l b' (logged o bs l)
        step_of none b' e = not_inserted bs small e
        step_of (some rid) b' e = inserted bs rid small e
    Reach-Step n b l (updating rid bs w) r left enough =
        let h = Reach-HoldsMap r left (omega (arith, enough)) in
        let (t, b', e, g) = update-HoldsMap dm k turns hf b₀ sound n b l h rid (h.given rid w) bs in
        (t, b', e, step_of t b' e)
      where
        step_of :
            (t : Bool) (b' : BufferManager D)
            → update dm b bs rid ≡ returned t b'
            → Step dm turns hf b l b' (logged_if t rid bs l)
        step_of true b' e = updated rid bs w e
        step_of false b' e = not_updated rid bs w e
    Reach-Step n b l (deleting rid w) r left enough =
        let h = Reach-HoldsMap r left (omega (arith, enough)) in
        let (t, b', e, g) = delete-HoldsMap dm k turns hf b₀ sound n b l h rid (h.given rid w) in
        (t, b', e, step_of t b' e)
      where
        step_of :
            (t : Bool) (b' : BufferManager D)
            → delete dm b rid ≡ returned t b'
            → Step dm turns hf b l b' (logged_if t rid [] l)
        step_of true b' e = deleted rid w e
        step_of false b' e = not_deleted rid w e
    Reach-Step n b l (getting rid w) r left enough =
        let h = Reach-HoldsMap r left (omega (arith, enough)) in
        let (o, b', e, shows, g) =
          get-HoldsMap dm k turns hf b₀ sound n b l h rid (h.given rid w) in
        (o, b', e, got rid o w e)
