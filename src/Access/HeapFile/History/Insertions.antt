-- ===== src/Access/HeapFile/History/Insertions.antt =====
-- A heap file that holds the map of a history, and `HeapFile::Insert` on it.
use cpp_relational_db.Base.{
  suc, ℕ, ◌+◌, ◌^◌, ◌<◌, ◌≤◌, ◌≡◌, inl, inr, Bool, true, false, refl, sym, ap, ◌∙◌, subst, List, [],
  ◌∷◌, Option, none, some, length, if◌then◌else◌, arith,
}
use cpp_relational_db.Storage.Bytes.{Page}
use cpp_relational_db.Storage.Disk.{IDiskManager, KeepsPages, IsPageId, invalid_page_id, take_id}
use cpp_relational_db.Storage.SlottedPage.{size_of_slot}
use cpp_relational_db.Storage.SlottedPage.Contents.{nonempty}
use cpp_relational_db.Storage.BufferManager.{BufferManager, returned}
use cpp_relational_db.Access.HeapFile.{Rid, HeapFile, insert}
use cpp_relational_db.Access.HeapFile.Ids.{IsSound, Grown, Grown-trans, take_id-Fresh}
use cpp_relational_db.Access.HeapFile.Visit.{Ready}
use cpp_relational_db.Access.HeapFile.Chain.{Entry, head_id, Chain, Chain-Away}
use cpp_relational_db.Access.HeapFile.Insert.{insert_into, insert-insert_into}
use cpp_relational_db.Access.HeapFile.View.{same_rid, view, Within, after_map}
use cpp_relational_db.Access.HeapFile.At.{
  insert_into_pages, insert_into_fits, Chain-Distinct, view-insert_into,
}
use cpp_relational_db.Access.HeapFile.History.{History, value, OnPage}

-- The history after an insertion, and after an operation on a page.
abbrev pub logged : Option Rid → List ℕ → History → History
logged none bs l = l
logged (some rid) bs l = (rid, bs) ∷ l

abbrev pub logged_if : Bool → Rid → List ℕ → History → History
logged_if true rid bs l = (rid, bs) ∷ l
logged_if false rid bs l = l

module _ {D : Type 0} (dm : IDiskManager D) {Stores : D → ℕ → Page → Type 0}
    (k : KeepsPages dm Stores) (turns : ℕ) (hf : HeapFile) (b₀ : BufferManager D)
    (sound : IsSound (k.ids b₀.disk)) where
  -- After `n` calls the heap file is a chain of pages that holds the map which the history leaves.
  pub record HoldsMap (n : ℕ) (b : BufferManager D) (l : History) : Type 0 where
    pub pages : List Entry
    pub ready : Ready b
    pub grown : Grown n (k.ids b₀.disk) (k.ids b.disk)
    pub proper : IsPageId hf.first_page_id
    pub first : hf.first_page_id ≡ head_id pages invalid_page_id
    pub chain : Chain k b pages invalid_page_id
    pub few : length pages ≤ 1 + n
    pub map : (r : Rid) → view pages r ≡ value l r
    pub given : (r : Rid) → OnPage r l → Within r.page_id pages

  module _ (n : ℕ) (b : BufferManager D) (l : History) (h : HoldsMap n b l) where
    after_map-logged :
        (o : Option Rid) (bs : List ℕ) (r : Rid)
        → after_map bs o (view h.pages) r ≡ value (logged o bs l) r
    after_map-logged none bs r = h.map r
    after_map-logged (some rid) bs r = ap (λ v. if same_rid rid r then nonempty bs else v) (h.map r)

    given-logged :
        (o : Option Rid) (bs : List ℕ) (fs : List Entry)
        → ((p : ℕ) → Within p h.pages → Within p fs)
        → ((rid : Rid) → o ≡ some rid → Within rid.page_id fs)
        → (r : Rid) → OnPage r (logged o bs l)
        → Within r.page_id fs
    given-logged none bs fs more own r w = more r.page_id (h.given r w)
    given-logged (some rid) bs fs more own r (inl s) =
        subst (λ p. Within p fs) (sym s) (own rid refl)
    given-logged (some rid) bs fs more own r (inr w) = more r.page_id (h.given r w)

    pub insert-HoldsMap :
        (bs : List ℕ)
        → length bs + size_of_slot < 2 ^ 64
        → (k.ids b₀.disk).next + n < 2 ^ 31
        → 1 + n < turns
        → (o : Option Rid) × (b' : BufferManager D) × (insert dm turns hf b bs
            ≡ returned (some o) (hf, b'))
          × HoldsMap (suc n) b' (logged o bs l)
          × (length bs + size_of_slot ≤ 8180 → (rid : Rid) × (o ≡ some rid))
    insert-HoldsMap bs small left enough = go h.pages refl
      where
        go :
            (es : List Entry)
            → h.pages ≡ es
            → (o : Option Rid) × (b' : BufferManager D) × (insert dm turns hf b bs
                ≡ returned (some o) (hf, b'))
              × HoldsMap (suc n) b' (logged o bs l)
              × (length bs + size_of_slot ≤ 8180 → (rid : Rid) × (o ≡ some rid))
        go [] s = absurd (omega (arith, h.first, ap (λ es. head_id es invalid_page_id) s, h.proper))
        go (e ∷ es) s =
            let c : Chain k b (e ∷ es) invalid_page_id =
              subst (λ q. Chain k b q invalid_page_id) s h.chain in
            let valid = h.grown.sound sound left in
            let new = (take_id (k.ids b.disk)).1 in
            let few : length (e ∷ es) ≤ 1 + n = rw s at h.few in
            let (b', eq, i) =
              insert-insert_into dm k turns b e es bs small (omega (arith, few, enough)) h.ready
                valid c hf (h.first ∙ ap (λ q. head_id q invalid_page_id) s) in
            let away =
              Chain-Away k b new (e ∷ es) invalid_page_id
                (take_id-Fresh (k.ids b.disk) valid).unused c in
            let (shows, more, own) =
              view-insert_into new (e ∷ es) bs (Chain-Distinct k b (e ∷ es) invalid_page_id c)
                away in
            let (head, len) = insert_into_pages new e es bs invalid_page_id in
            let o = (insert_into new (e ∷ es) bs).1 in
            let fs = (insert_into new (e ∷ es) bs).0 in
            (
              o,
              b',
              eq,
              record {
                pages = fs;
                ready = i.ready;
                grown =
                    subst (λ m. Grown m (k.ids b₀.disk) (k.ids b'.disk)) (omega arith)
                      (Grown-trans h.grown i.grown);
                proper = h.proper;
                first = h.first ∙ ap (λ q. head_id q invalid_page_id) s ∙ sym head;
                chain = i.chain;
                few = omega (arith, few, len);
                map = λ r.
                    shows r ∙ ap (λ q. after_map bs o (view q) r) (sym s) ∙ after_map-logged o bs r;
                given = given-logged o bs fs (λ p w. more p (subst (Within p) s w)) own;
              },
              insert_into_fits new (e ∷ es) bs,
            )
