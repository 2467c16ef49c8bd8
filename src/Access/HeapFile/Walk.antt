-- ===== src/Access/HeapFile/Walk.antt =====
-- The loop of `HeapFile::Insert`: the record goes to the first page of the chain with room for it.
use mathlib.Core.Option
use cpp_relational_db.Base.{
  zero, suc, ℕ, ◌+◌, ◌^◌, ◌<◌, ◌≡◌, ◌==◌, inl, inr, refl, sym, ap, ◌∙◌, some, none, Option, List,
  [], ◌∷◌, true, false, arith, length, ltb, Bool-cases, ne→==, if◌then◌else◌,
}
use cpp_relational_db.Storage.Bytes.{Page}
use cpp_relational_db.Storage.Disk.{IDiskManager, KeepsPages, invalid_page_id}
use cpp_relational_db.Storage.SlottedPage
use cpp_relational_db.Storage.SlottedPage.{size_of_slot}
use cpp_relational_db.Storage.BufferManager.{BufferManager, returned, frame}
use cpp_relational_db.Storage.BufferManager.Invariant.{Holds}
use cpp_relational_db.Access.HeapFile.{
  Rid, Walked, found, ended, walk, place_in, page_in, next_page_id,
}
use cpp_relational_db.Access.HeapFile.Visit.{
  Ready, Settled, Settled-Ready, Settled-trans, Settled-refl, Opened, request-Opened, release_read,
  release_written, Opened-SameBytes,
}
use cpp_relational_db.Access.HeapFile.Chain.{
  Entry, head_id, Away, IsPageOf, Node, Chain, Node-kept, Chain-kept, Chain-Preserves,
}
use cpp_relational_db.Access.HeapFile.Shape.{
  appended, IsPageOf-SameBytes, insert_no_room, insert_fits,
}

-- The chain with a record in the first page that has room for it and a slot, and its id.
unfoldable pub place : List ℕ → List Entry → Option (List Entry × Rid)
place bs [] = none
place bs (e ∷ es) =
    let rest = place bs es in
    if ltb e.room (length bs + size_of_slot)
    then Option.map (λ r. (e ∷ r.0, r.1)) rest
    else some (appended e bs ∷ es, record { page_id = e.id; slot_id = length e.records })

abbrev pub chain_after : List Entry → Option (List Entry × Rid) → List Entry
chain_after es none = es
chain_after es (some (fs, rid)) = fs

abbrev pub last_id : ℕ → List Entry → ℕ
last_id p [] = p
last_id p (e ∷ es) = last_id e.id es

abbrev pub walked : ℕ → List Entry → Option (List Entry × Rid) → Walked
walked last es none = ended (last_id last es)
walked last es (some (fs, rid)) = found rid

pub place_full :
    (bs : List ℕ) (e : Entry) (es : List Entry)
    → ltb e.room (length bs + size_of_slot) ≡ true
    → place bs (e ∷ es) ≡ Option.map (λ r. (e ∷ r.0, r.1)) (place bs es)
unfolding place
place_full bs e es h = rw h

pub place_free :
    (bs : List ℕ) (e : Entry) (es : List Entry)
    → ltb e.room (length bs + size_of_slot) ≡ false
    → place bs (e ∷ es)
      ≡ some (appended e bs ∷ es, record { page_id = e.id; slot_id = length e.records })
unfolding place
place_free bs e es h = rw h

abbrev behind : Entry → Option (List Entry × Rid) → Option (List Entry × Rid)
behind e o = Option.map (λ r. (e ∷ r.0, r.1)) o

walked-behind :
    (last : ℕ) (e : Entry) (es : List Entry) (o : Option (List Entry × Rid))
    → walked last (e ∷ es) (behind e o) ≡ walked e.id es o
walked-behind last e es none = refl
walked-behind last e es (some (fs, rid)) = refl

after_behind :
    (e : Entry) (es : List Entry) (o : Option (List Entry × Rid))
    → chain_after (e ∷ es) (behind e o) ≡ e ∷ chain_after es o
after_behind e es none = refl
after_behind e es (some (fs, rid)) = refl

-- The pages of the chain are the same afterwards.
module _ (bs : List ℕ) where
  after_cases :
      (P : List Entry → Type 0) (e : Entry) (es : List Entry)
      → P (e ∷ chain_after es (place bs es))
      → P (appended e bs ∷ es)
      → P (chain_after (e ∷ es) (place bs (e ∷ es)))
  after_cases P e es full free = elim (Bool-cases (ltb e.room (length bs + size_of_slot))) [
    | inl h ↦ rw (place_full bs e es h, after_behind e es (place bs es)) full
    | inr h ↦ rw (place_free bs e es h) free
  ]

  pub head_after :
      (es : List Entry) (end : ℕ) → head_id (chain_after es (place bs es)) end ≡ head_id es end
  unfolding place
  head_after [] end = refl
  head_after (e ∷ es) end = after_cases (λ fs. head_id fs end ≡ e.id) e es refl refl

  pub length-after : (es : List Entry) → length (chain_after es (place bs es)) ≡ length es
  unfolding place
  length-after [] = refl
  length-after (e ∷ es) =
      after_cases (λ fs. length fs ≡ suc (length es)) e es (ap suc (length-after es)) refl

  pub Away-chain_after :
      (p : ℕ) (es : List Entry) → Away p es → Away p (chain_after es (place bs es))
  unfolding place
  Away-chain_after p [] a = tt
  Away-chain_after p (e ∷ es) (ne, a) =
      after_cases (λ fs. Away p fs) e es (ne, Away-chain_after p es a) (ne, a)

module _ {D : Type 0} (dm : IDiskManager D) {Stores : D → ℕ → Page → Type 0}
    (k : KeepsPages dm Stores) (bs : List ℕ) (small : length bs + size_of_slot < 2 ^ 64) where
  -- `b'` is `b` with the chain `fs` in the place of `es`, and every other page as it was.
  pub record Moved (b : BufferManager D) (es fs : List Entry) (end : ℕ) (b' : BufferManager D)
      : Type 0 where
    pub settled : Settled k b b'
    pub chain : Chain k b' fs end
    pub others : (p : ℕ) (z : Page) → Away p es → Holds Stores b p z → Holds Stores b' p z

  module _ (turns : ℕ) (b : BufferManager D) (e : Entry) (es : List Entry) (last : ℕ) (r : Ready b)
      (n : Node k b e (head_id es invalid_page_id)) (d : Away e.id es)
      (c : Chain k b es invalid_page_id) (f : ℕ) (b₁ : BufferManager D)
      (o : Opened dm k b e.id r n.is_id f b₁) where
    shape : IsPageOf e (head_id es invalid_page_id) (frame b₁ f).bytes
    shape =
        IsPageOf-SameBytes e (head_id es invalid_page_id) n.page (frame b₁ f).bytes n.shape
          (Opened-SameBytes dm k b e.id r n.is_id f b₁ o n.page n.holds)

    -- A turn of the loop, on a page that was requested.
    walk_turn :
        walk dm bs (suc turns) b e.id last
        ≡ place_in dm (walk dm bs turns) b₁ e.id f (SlottedPage.insert (page_in b₁ f) bs)
    unfolding walk
    walk_turn =
        let proper : (e.id == invalid_page_id) ≡ false =
          ne→== e.id invalid_page_id (λ s. omega (arith, n.is_id)) in
        rw (proper, o.requested)

    -- The page has room.
    walk_free :
        ltb e.room (length bs + size_of_slot) ≡ false
        → (b' : BufferManager D) × (walk dm bs (suc turns) b e.id last
            ≡ returned (some (walked last (e ∷ es) (place bs (e ∷ es)))) b')
          × Moved b (e ∷ es) (chain_after (e ∷ es) (place bs (e ∷ es))) invalid_page_id b'
    unfolding place_in
    walk_free h =
        let (slot, page) =
          insert_fits e (head_id es invalid_page_id) (frame b₁ f).bytes shape bs small h in
        let (sp, _) = SlottedPage.insert (page_in b₁ f) bs in
        let (b₂, e₂, settled, own, others) =
          release_written dm k b e.id r n.is_id f b₁ o sp.bytes in
        (
          b₂,
          rw (place_free bs e es h) (
              walk_turn
              ∙ ap (λ s. place_in dm (walk dm bs turns) b₁ e.id f (sp, s)) slot
              ∙ (rw e₂)),
          rw (place_free bs e es h) (record {
            settled = settled;
            chain = (
              record {
                page = sp.bytes;
                holds = own;
                is_id = n.is_id;
                used = rw settled.akin.ids n.used;
                shape = page;
              },
              d,
              Chain-kept k (λ p u. rw settled.akin.ids u) e.id others es invalid_page_id d c,
            );
            others = λ p z (ne, a) held. others p z ne held;
          }),
        )

    -- The page is full: the chain behind it is walked.
    walk_full :
        ((b₂ : BufferManager D)
          → Ready b₂
          → Chain k b₂ es invalid_page_id
          → (b' : BufferManager D) × (walk dm bs turns b₂ (head_id es invalid_page_id) e.id
              ≡ returned (some (walked e.id es (place bs es))) b')
            × Moved b₂ es (chain_after es (place bs es)) invalid_page_id b')
        → ltb e.room (length bs + size_of_slot) ≡ true
        → (b' : BufferManager D) × (walk dm bs (suc turns) b e.id last
            ≡ returned (some (walked last (e ∷ es) (place bs (e ∷ es)))) b')
          × Moved b (e ∷ es) (chain_after (e ∷ es) (place bs (e ∷ es))) invalid_page_id b'
    unfolding place_in
    walk_full ih h =
        let (b₂, e₂, settled, kept, bytes) = release_read dm k b e.id r n.is_id f b₁ o in
        let (b', e', m) =
          ih b₂ (Settled-Ready k settled r)
            (Chain-Preserves k (λ p u. rw settled.akin.ids u) kept es invalid_page_id c) in
        let link : next_page_id (frame b₂ f).bytes ≡ head_id es invalid_page_id =
          ap next_page_id bytes ∙ shape.linked in
        (
          b',
          walk_turn
              ∙ ap (place_in dm (walk dm bs turns) b₁ e.id f) (
                  insert_no_room e (head_id es invalid_page_id) (frame b₁ f).bytes shape bs small h)
              ∙ (rw (e₂, link))
              ∙ e'
              ∙ ap (λ w. returned (some w) b')
                  (sym (
                    ap (walked last (e ∷ es)) (place_full bs e es h)
                    ∙ walked-behind last e es (place bs es))),
          rw (place_full bs e es h, after_behind e es (place bs es))
              (record {
                settled = Settled-trans k settled m.settled;
                chain = (
                  rw (head_after bs es invalid_page_id) (
                      Node-kept k (λ p u. rw m.settled.akin.ids u)
                        (λ x held. m.others e.id x d held)
                        (Node-kept k (λ p u. rw settled.akin.ids u) (λ x held. kept e.id x held)
                          n)),
                  Away-chain_after bs e.id es d,
                  m.chain,
                );
                others = λ p z (ne, a) held. m.others p z a (kept p z held);
              }),
        )

  -- With more turns than pages the loop ends.
  pub walk-place :
      (turns : ℕ) (b : BufferManager D) (es : List Entry) (last : ℕ)
      → length es < turns
      → Ready b
      → Chain k b es invalid_page_id
      → (b' : BufferManager D) × (walk dm bs turns b (head_id es invalid_page_id) last
          ≡ returned (some (walked last es (place bs es))) b')
        × Moved b es (chain_after es (place bs es)) invalid_page_id b'
  unfolding walk place
  walk-place zero b es last l r c = absurd (omega (arith, l))
  walk-place (suc turns) b [] last l r c =
      (b, refl, record { settled = Settled-refl k r; chain = tt; others = λ p z a held. held })
  walk-place (suc turns) b (e ∷ es) last l r (n, d, c) =
      let (f, b₁, o) = request-Opened dm k b e.id r n.is_id in
      elim (Bool-cases (ltb e.room (length bs + size_of_slot))) [
        | inl h ↦
            walk_full turns b e es last r n d c f b₁ o
              (λ b₂ r₂ c₂. walk-place turns b₂ es e.id (omega (arith, l)) r₂ c₂) h
        | inr h ↦ walk_free turns b e es last r n d c f b₁ o h
      ]
