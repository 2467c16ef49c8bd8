-- ===== src/Access/HeapFile/At.antt =====
-- A page of a chain, on its own and replaced: `HeapFile::Insert`, `Update` and `Delete` on the map
-- that a heap file is.
use cpp_relational_db.Base.{
  le→ltb, ◌≤◌, length-append, arith, suc, length, ltb, ℕ, ◌+◌, ◌≡◌, ◌≢◌, inl, inr, ◌==◌, true,
  false, refl, sym, ap, ◌∙◌, subst, List, [], ◌∷◌, ◌++◌, none, some, Bool-cases, Option-cases,
  if◌then◌else◌, ==_self, ==→eq, ==→ne, ne→==,
}
use cpp_relational_db.Storage.Bytes.{Page}
use cpp_relational_db.Storage.Disk.{IDiskManager, KeepsPages}
use cpp_relational_db.Storage.SlottedPage.{size_of_slot}
use cpp_relational_db.Storage.SlottedPage.Contents.{live_record}
use cpp_relational_db.Storage.BufferManager.{BufferManager}
use cpp_relational_db.Storage.BufferManager.Invariant.{Holds}
use cpp_relational_db.Access.HeapFile.{Rid}
use cpp_relational_db.Access.HeapFile.Ids.{InUse}
use cpp_relational_db.Access.HeapFile.Chain.{
  Entry, head_id, Away, Node, Chain, Node-kept, Chain-kept,
}
use cpp_relational_db.Access.HeapFile.Walk.{place, head_after, length-after}
use cpp_relational_db.Access.HeapFile.Append.{new_page}
use cpp_relational_db.Access.HeapFile.Insert.{insert_into, insert_into_full, insert_into_placed}
use cpp_relational_db.Access.HeapFile.View.{
  view, Within, Distinct, Within-append, Within-last, Away-Within, PlacedAt, after_map,
  place-PlacedAt, view-new_page,
}

-- The entry of a page is replaced.
abbrev pub put : Entry → List Entry → List Entry
put f [] = []
put f (e ∷ es) = if e.id == f.id then f ∷ es else e ∷ put f es

put_here : (f e : Entry) (es : List Entry) → f.id ≡ e.id → put f (e ∷ es) ≡ f ∷ es
put_here f e es s = let same : (e.id == f.id) ≡ true = rw s (==_self e.id) in rw same refl

put_there : (f e : Entry) (es : List Entry) → e.id ≢ f.id → put f (e ∷ es) ≡ e ∷ put f es
put_there f e es ne = let apart : (e.id == f.id) ≡ false = ne→== e.id f.id ne in rw apart refl

pub Away-put : (q : ℕ) (f : Entry) (es : List Entry) → Away q es → Away q (put f es)
Away-put q f [] a = tt
Away-put q f (e ∷ es) (ne, a) = elim (Bool-cases (e.id == f.id)) [
  | inl here ↦ rw here (subst (λ i. q ≢ i) (==→eq _ _ here) ne, a)
  | inr there ↦ rw there (ne, Away-put q f es a)
]

pub head-put : (f : Entry) (es : List Entry) (end : ℕ) → head_id (put f es) end ≡ head_id es end
head-put f [] end = refl
head-put f (e ∷ es) end = elim (Bool-cases (e.id == f.id)) [
  | inl here ↦ rw here (sym (==→eq _ _ here))
  | inr there ↦ rw there refl
]

pub length-put : (f : Entry) (es : List Entry) → length (put f es) ≡ length es
length-put f [] = refl
length-put f (e ∷ es) = elim (Bool-cases (e.id == f.id)) [
  | inl here ↦ rw here refl
  | inr there ↦ rw there (ap suc (length-put f es))
]

pub Within-put : (p : ℕ) (f : Entry) (es : List Entry) → Within p es → Within p (put f es)
Within-put p f [] w = w
Within-put p f (e ∷ es) (inl s) = elim (Bool-cases (e.id == f.id)) [
  | inl here ↦ rw here (inl (s ∙ ==→eq _ _ here))
  | inr there ↦ rw there (inl s)
]
Within-put p f (e ∷ es) (inr w) = elim (Bool-cases (e.id == f.id)) [
  | inl here ↦ rw here (inr w)
  | inr there ↦ rw there (inr (Within-put p f es w))
]

pub view-put :
    (f : Entry) (es : List Entry) (r : Rid)
    → Within f.id es
    → view (put f es) r ≡ (if f.id == r.page_id then live_record f.records r.slot_id else view es r)
view-put f [] r w = absurd w
view-put f (e ∷ es) r w = elim (Bool-cases (e.id == f.id)) [
  | inl here ↦
      let same : e.id ≡ f.id = ==→eq _ _ here in
      elim (Bool-cases (f.id == r.page_id)) [
        | inl is ↦ rw (here, is) refl
        | inr isnt ↦ rw (here, same, isnt) refl
      ]
  | inr there ↦ elim w [
    | inl s ↦ let no : true ≡ false = sym (==_self e.id) ∙ ap (λ i. e.id == i) (sym s) ∙ there in cc
    | inr v ↦ elim (Bool-cases (e.id == r.page_id)) [
      | inl is ↦
          let apart : (f.id == r.page_id) ≡ false =
            ne→== f.id r.page_id (λ s. ==→ne e.id f.id there (==→eq _ _ is ∙ sym s)) in
          rw (there, is, apart) refl
      | inr isnt ↦ rw (there, isnt) (view-put f es r v)
    ]
  ]
]

module _ {D : Type 0} {dm : IDiskManager D} {Stores : D → ℕ → Page → Type 0}
    (k : KeepsPages dm Stores) where
  pub Chain-Distinct :
      (b : BufferManager D) (es : List Entry) (end : ℕ) → Chain k b es end → Distinct es
  Chain-Distinct b [] end c = tt
  Chain-Distinct b (e ∷ es) end (n, d, c) = (d, Chain-Distinct b es end c)

  -- The page `p` of the chain, and the chain with it replaced.
  pub record At (b : BufferManager D) (es : List Entry) (end p : ℕ) : Type 0 where
    pub entry : Entry
    pub next : ℕ
    pub node : Node k b entry next
    pub is_page : entry.id ≡ p
    pub shown : (r : Rid) → r.page_id ≡ p → view es r ≡ live_record entry.records r.slot_id
    pub rebuilt :
        (b' : BufferManager D)
        → ((q : ℕ) → InUse (k.ids b.disk) q → InUse (k.ids b'.disk) q)
        → ((q : ℕ) (x : Page) → q ≢ p → Holds Stores b q x → Holds Stores b' q x)
        → (f : Entry) → f.id ≡ p
        → Node k b' f next
        → Chain k b' (put f es) end

  pub Chain-At :
      (b : BufferManager D) (es : List Entry) (end p : ℕ)
      → Chain k b es end
      → Within p es
      → At b es end p
  Chain-At b [] end p c w = absurd w
  Chain-At b (e ∷ es) end p (n, d, c) (inl s) = record {
    entry = e;
    next = head_id es end;
    node = n;
    is_page = sym s;
    shown = λ r i. let here : (e.id == r.page_id) ≡ true = rw (i, s) (==_self e.id) in rw here refl;
    rebuilt = λ b' more others f i m. rw (put_here f e es (i ∙ s)) (
      m,
      subst (λ q. Away q es) (sym (i ∙ s)) d,
      Chain-kept k more p others es end (subst (λ q. Away q es) (sym s) d) c,
    );
  }
  Chain-At b (e ∷ es) end p (n, d, c) (inr w) =
      let a = Chain-At b es end p c w in
      let ne : e.id ≢ p = Away-Within e.id p es d w in
      record {
        entry = a.entry;
        next = a.next;
        node = a.node;
        is_page = a.is_page;
        shown = λ r i.
            let there : (e.id == r.page_id) ≡ false = ne→== e.id r.page_id (λ s. ne (s ∙ i)) in
            rw there (a.shown r i);
        rebuilt = λ b' more others f i m.
            rw (put_there f e es (λ s. ne (s ∙ i)), head-put f es end)
              (
                Node-kept k more (λ x. others e.id x ne) n,
                Away-put e.id f es d,
                a.rebuilt b' more others f i m,
              );
      }

new_page_own :
    (new : ℕ) (bs : List ℕ) (rid : Rid)
    → (new_page new bs).1 ≡ some rid
    → rid.page_id ≡ (new_page new bs).0.id
unfolding new_page
new_page_own new bs rid e = elim (Bool-cases (ltb 8180 (length bs + size_of_slot))) [
  | inl large ↦ let no : none ≡ some rid = rw large at e in cc
  | inr fits ↦
      let first : some (record { page_id = new; slot_id = 0 }) ≡ some rid = rw fits at e in
      let is : record { page_id = new; slot_id = 0 } ≡ rid = cc in
      rw fits (sym (ap (λ r. r.page_id) is))
]

-- A record that fits an empty page is inserted.
pub insert_into_fits :
    (new : ℕ) (es : List Entry) (bs : List ℕ)
    → length bs + size_of_slot ≤ 8180
    → (rid : Rid) × ((insert_into new es bs).1 ≡ some rid)
unfolding new_page
insert_into_fits new es bs l = elim (Option-cases (place bs es)) [
  | inl full ↦
      rw (insert_into_full new es bs full, le→ltb 8180 (length bs + size_of_slot) l)
        (record { page_id = new; slot_id = 0 }, refl)
  | inr ((fs, rid), placed) ↦ rw (insert_into_placed new es bs fs rid placed) (rid, refl)
]

-- The first page of the chain stays, and there is at most one page more.
pub insert_into_pages :
    (new : ℕ) (e : Entry) (es : List Entry) (bs : List ℕ) (end : ℕ)
    → (head_id (insert_into new (e ∷ es) bs).0 end ≡ e.id)
      × (length (insert_into new (e ∷ es) bs).0 ≤ length (e ∷ es) + 1)
insert_into_pages new e es bs end = elim (Option-cases (place bs (e ∷ es))) [
  | inl full ↦
      rw (insert_into_full new (e ∷ es) bs full)
        (refl, omega (arith, length-append (e ∷ es) ((new_page new bs).0 ∷ [])))
  | inr ((fs, rid), placed) ↦ rw (insert_into_placed new (e ∷ es) bs fs rid placed) (
    (rw placed at (head_after bs (e ∷ es) end)),
    omega (arith, (rw placed at (length-after bs (e ∷ es)))),
  )
]

-- What an insertion makes of the map and of the pages.
pub view-insert_into :
    (new : ℕ) (es : List Entry) (bs : List ℕ)
    → Distinct es
    → Away new es
    → ((r : Rid)
        → view (insert_into new es bs).0 r ≡ after_map bs (insert_into new es bs).1 (view es) r)
      × ((p : ℕ) → Within p es → Within p (insert_into new es bs).0)
      × ((rid : Rid)
          → (insert_into new es bs).1 ≡ some rid
          → Within rid.page_id (insert_into new es bs).0)
view-insert_into new es bs d a = elim (Option-cases (place bs es)) [
  | inl full ↦ rw (insert_into_full new es bs full) (
    λ r. view-new_page bs new es r a,
    λ p w. Within-append p es ((new_page new bs).0 ∷ []) w,
    λ rid e.
        subst (λ q. Within q (es ++ (new_page new bs).0 ∷ [])) (sym (new_page_own new bs rid e))
          (Within-last (new_page new bs).0 es),
  )
  | inr ((fs, rid), placed) ↦
      let (w, same, more) = subst (PlacedAt bs es) placed (place-PlacedAt bs es d) in
      rw (insert_into_placed new es bs fs rid placed) (
        same,
        more,
        λ r e. let is : rid ≡ r = cc in subst (λ q. Within q.page_id fs) is (more rid.page_id w),
      )
]
