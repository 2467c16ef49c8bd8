-- ===== src/Access/HeapFile/Insert.antt =====
-- `HeapFile::Insert` on a chain of pages.
use cpp_relational_db.Base.{
  ℕ, ◌+◌, ◌^◌, ◌<◌, ◌≡◌, ◌≢◌, ◌==◌, inl, inr, refl, sym, ap, ◌∙◌, subst, some, none, Option, List,
  [], ◌∷◌, ◌++◌, arith, false, length, Option-cases, ne→==,
}
use cpp_relational_db.Storage.Bytes.{Page}
use cpp_relational_db.Storage.Disk.{IDiskManager, KeepsPages, take_id, invalid_page_id}
use cpp_relational_db.Storage.SlottedPage.{size_of_slot}
use cpp_relational_db.Storage.BufferManager.{BufferManager, returned, frame}
use cpp_relational_db.Storage.BufferManager.Invariant.{Holds}
use cpp_relational_db.Access.HeapFile.{
  Rid, HeapFile, allocate, edit, append_page, insert_from, insert, set_next_page_id, or_append,
}
use cpp_relational_db.Access.HeapFile.Ids.{
  IsSound, InUse, Grown, Grown-refl, Grown-weaken, take_id-Grown,
}
use cpp_relational_db.Access.HeapFile.Visit.{Ready, Settled, Settled-Ready}
use cpp_relational_db.Access.HeapFile.Chain.{
  Entry, Away, Node, Chain, Chain-kept, Chain-Preserves, Chain-relink, Chain-last, Chain-Away,
  Chain-snoc, last_of, Away-append,
}
use cpp_relational_db.Access.HeapFile.Shape.{IsPageOf-SameBytes, IsPageOf-set_next_page_id}
use cpp_relational_db.Access.HeapFile.Walk.{
  place, last_id, walk-place, chain_after, Away-chain_after,
}
use cpp_relational_db.Access.HeapFile.Append.{
  new_page, id-new_page, allocate_id, allocate_ids, allocate-Allocated, edit-Edited, fill_page_lem,
}

-- The chain after an insertion, and the record's id: the record goes to the first page with room,
-- or else a page is appended, with the record if it fits there.
unfoldable pub insert_into : ℕ → List Entry → List ℕ → List Entry × Option Rid
insert_into new es bs = elim (place bs es) [
  | none ↦ (es ++ (new_page new bs).0 ∷ [], (new_page new bs).1)
  | some (fs, rid) ↦ (fs, some rid)
]

module _ (new : ℕ) (es : List Entry) (bs : List ℕ) where
  pub insert_into_full :
      place bs es ≡ none
      → insert_into new es bs ≡ (es ++ (new_page new bs).0 ∷ [], (new_page new bs).1)
  unfolding insert_into
  insert_into_full h = rw (h, insert_into)

  pub insert_into_placed :
      (fs : List Entry) (rid : Rid)
      → place bs es ≡ some (fs, rid)
      → insert_into new es bs ≡ (fs, some rid)
  unfolding insert_into
  insert_into_placed fs rid h = rw (h, insert_into)

module _ {D : Type 0} (dm : IDiskManager D) {Stores : D → ℕ → Page → Type 0}
    (k : KeepsPages dm Stores) where
  -- `b'` is `b` with the chain `fs` in the place of `es`, for which the disk gave out at most `n`
  -- page ids; every other page in use is as it was and outside of the chain, and every frame has as
  -- many pins.
  pub record Inserted (n : ℕ) (b : BufferManager D) (es fs : List Entry) (b' : BufferManager D)
      : Type 0 where
    pub ready : Ready b'
    pub chain : Chain k b' fs invalid_page_id
    pub others :
        (p : ℕ) (z : Page)
        → InUse (k.ids b.disk) p
        → Away p es
        → Holds Stores b p z
        → Holds Stores b' p z
    pub pins : (g : ℕ) → (frame b' g).pin_count ≡ (frame b g).pin_count
    pub grown : Grown n (k.ids b.disk) (k.ids b'.disk)
    pub own : (p : ℕ) → InUse (k.ids b.disk) p → Away p es → Away p fs

  Away-last_of : (p : ℕ) (e : Entry) (es : List Entry) → Away p (e ∷ es) → p ≢ (last_of e es).id
  Away-last_of p e [] (ne, a) = ne
  Away-last_of p e (f ∷ fs) (ne, a) = Away-last_of p f fs a

  -- The last page is linked to a new one.
  module _ (b : BufferManager D) (e : Entry) (es : List Entry) (r : Ready b)
      (c : Chain k b (e ∷ es) invalid_page_id) where
    link_lem :
        (id : ℕ)
        → id < 2 ^ 32
        → (b' : BufferManager D) × (edit dm (set_next_page_id id) b (last_of e es).id
            ≡ returned tt b')
          × Settled k b b'
          × Chain k b' (e ∷ es) id
          × ((p : ℕ) (z : Page) → p ≢ (last_of e es).id → Holds Stores b p z → Holds Stores b' p z)
    link_lem id l =
        let n = Chain-last k b e es invalid_page_id c in
        let (y, b', eq, ed) =
          edit-Edited dm k (set_next_page_id id) b (last_of e es).id r n.is_id in
        let shape =
          IsPageOf-SameBytes (last_of e es) invalid_page_id n.page y n.shape
            (ed.held n.page n.holds) in
        let node : Node k b' (last_of e es) id = record {
          page = set_next_page_id id y;
          holds = ed.own;
          is_id = n.is_id;
          used = rw ed.settled.akin.ids n.used;
          shape = IsPageOf-set_next_page_id (last_of e es) invalid_page_id id y shape l;
        } in
        (
          b',
          eq,
          ed.settled,
          Chain-relink k (λ p u. rw ed.settled.akin.ids u) e es invalid_page_id id ed.others node c,
          ed.others,
        )

  -- A page is appended.
  append_page-Inserted :
      (b : BufferManager D) (e : Entry) (es : List Entry) (bs : List ℕ)
      → length bs + size_of_slot < 2 ^ 64
      → Ready b
      → IsSound (k.ids b.disk)
      → Chain k b (e ∷ es) invalid_page_id
      → (b' : BufferManager D) × (append_page dm bs b (last_of e es).id
          ≡ returned (new_page (allocate dm b).1 bs).1 b')
        × Inserted 1 b (e ∷ es) (e ∷ es ++ (new_page (allocate dm b).1 bs).0 ∷ []) b'
  unfolding append_page
  append_page-Inserted b e es bs small r sound c =
      let (b₀, id) = allocate dm b in
      let a = allocate-Allocated dm k b r sound in
      let c₀ = Chain-Preserves k a.fresh.kept a.kept (e ∷ es) invalid_page_id c in
      let (b₁, e₁, s₁, c₁, others₁) =
        link_lem b₀ e es a.ready c₀ id (omega (arith, a.fresh.is_id)) in
      let r₁ = Settled-Ready k s₁ a.ready in
      let (page, b₂, e₂, s₂, own, shape, others₂) =
        fill_page_lem dm k bs b₁ id small r₁ a.fresh.is_id in
      let new = (new_page id bs).0 in
      let same : new.id ≡ id = id-new_page id bs in
      let away = Chain-Away k b id (e ∷ es) invalid_page_id a.fresh.unused c in
      let c₂ = Chain-kept k (λ p u. rw s₂.akin.ids u) id others₂ (e ∷ es) id away c₁ in
      let node : Node k b₂ new invalid_page_id = record {
        page = page;
        holds = rw same own;
        is_id = rw same a.fresh.is_id;
        used = rw (same, s₂.akin.ids, s₁.akin.ids) a.fresh.used;
        shape = shape;
      } in
      (
        b₂,
        rw (e₁) e₂,
        record {
          ready = Settled-Ready k s₂ r₁;
          chain =
              Chain-snoc k b₂ (e ∷ es) new invalid_page_id
                (subst (λ q. Away q (e ∷ es)) (sym same) away)
                (subst (λ q. Chain k b₂ (e ∷ es) q) (sym same) c₂) node;
          others = λ p z u aw held.
              let ne : p ≢ id = λ s. a.fresh.unused (subst (InUse (k.ids b.disk)) s u) in
              others₂ p z ne (others₁ p z (Away-last_of p e es aw) (a.kept p z held));
          pins = λ g. s₂.pins g ∙ s₁.pins g ∙ a.pins g;
          grown =
              rw (s₂.akin.ids, s₁.akin.ids, allocate_ids dm k b)
                (take_id-Grown (k.ids b.disk) sound);
          own = λ p u aw.
              let ne : p ≢ id = λ s. a.fresh.unused (subst (InUse (k.ids b.disk)) s u) in
              Away-append p (e ∷ es) (new ∷ []) aw (subst (λ q. p ≢ q) (sym same) ne, tt);
        },
      )

  last_same : (p : ℕ) (e : Entry) (es : List Entry) → last_id p (e ∷ es) ≡ (last_of e es).id
  last_same p e [] = refl
  last_same p e (f ∷ fs) = last_same e.id f fs

  module _ (turns : ℕ) (b : BufferManager D) (e : Entry) (es : List Entry) (bs : List ℕ)
      (small : length bs + size_of_slot < 2 ^ 64) (enough : length (e ∷ es) < turns) (r : Ready b)
      (sound : IsSound (k.ids b.disk)) (c : Chain k b (e ∷ es) invalid_page_id) where
    -- The id of the page that an insertion would append.
    abbrev new_id : ℕ
    new_id = (take_id (k.ids b.disk)).1

    pub insert_from-insert_into :
        (b' : BufferManager D) × (insert_from dm turns b bs e.id
          ≡ returned (some (insert_into new_id (e ∷ es) bs).1) b')
        × Inserted 1 b (e ∷ es) (insert_into new_id (e ∷ es) bs).0 b'
    unfolding insert_from or_append
    insert_from-insert_into =
        let (b₁, e₁, m) = walk-place dm k bs small turns b (e ∷ es) invalid_page_id enough r c in
        elim (Option-cases (place bs (e ∷ es))) [
          | inl full ↦
              let spec = insert_into_full new_id (e ∷ es) bs full in
              let r₁ = Settled-Ready k m.settled r in
              let c₁ : Chain k b₁ (e ∷ es) invalid_page_id = rw full at m.chain in
              let (b₂, e₂, i) =
                append_page-Inserted b₁ e es bs small r₁ (rw m.settled.akin.ids sound) c₁ in
              let same : (allocate dm b₁).1 ≡ new_id =
                allocate_id dm k b₁ ∙ ap (λ s. (take_id s).1) m.settled.akin.ids in
              (
                b₂,
                rw (e₁, full, last_same invalid_page_id e es, e₂, same, spec),
                rw spec (record {
                  ready = i.ready;
                  chain =
                      subst (λ q. Chain k b₂ (e ∷ es ++ (new_page q bs).0 ∷ []) invalid_page_id)
                        same i.chain;
                  others = λ p z u a held.
                      i.others p z (rw m.settled.akin.ids u) a (m.others p z a held);
                  pins = λ g. i.pins g ∙ m.settled.pins g;
                  grown = rw m.settled.akin.ids at i.grown;
                  own = λ p u a.
                      subst (λ q. Away p (e ∷ es ++ (new_page q bs).0 ∷ [])) same
                        (i.own p (rw m.settled.akin.ids u) a);
                }),
              )
          | inr ((fs, rid), placed) ↦
              let spec = insert_into_placed new_id (e ∷ es) bs fs rid placed in
              (
                b₁,
                rw (e₁, placed, spec),
                rw spec (record {
                  ready = Settled-Ready k m.settled r;
                  chain = rw placed at m.chain;
                  others = λ p z u a held. m.others p z a held;
                  pins = m.settled.pins;
                  grown = rw m.settled.akin.ids (Grown-weaken (omega arith) Grown-refl);
                  own = λ p u a.
                      subst (λ o. Away p (chain_after (e ∷ es) o)) placed
                        (Away-chain_after bs p (e ∷ es) a);
                }),
              )
        ]

    -- On a valid pool over a disk that keeps pages, with an unpinned frame and room for a pin on
    -- every frame, `Insert` of a record shorter than 2 ^ 64 - 4 bytes into a heap file whose pages
    -- hold a chain of entries, with more turns of the loop than pages, returns what `insert_into`
    -- returns and leaves the chain that it leaves: the record is in the first page that has room
    -- for it and a slot, or else in a new page behind the last, which stays empty when the record
    -- does not fit there. At most one page id is given out. Every other page in use keeps its
    -- contents and stays outside of the chain, every frame keeps its number of pins, and the pool
    -- stays valid.
    pub insert-insert_into :
        (hf : HeapFile)
        → hf.first_page_id ≡ e.id
        → (b' : BufferManager D) × (insert dm turns hf b bs
            ≡ returned (some (insert_into new_id (e ∷ es) bs).1) (hf, b'))
          × Inserted 1 b (e ∷ es) (insert_into new_id (e ∷ es) bs).0 b'
    unfolding insert
    insert-insert_into hf first =
        let (b', eq, i) = insert_from-insert_into in
        let proper : (e.id == invalid_page_id) ≡ false =
          ne→== e.id invalid_page_id (λ s. omega (arith, s, c.0.is_id)) in
        (b', rw (first, proper, eq), i)
