-- ===== src/Access/HeapIterator/Advance.antt =====
-- Where `Advance` and `operator*` of an iterator get to.
use mathlib.Core.Option
use cpp_relational_db.Base.{
  zero, suc, ℕ, ◌+◌, ◌-◌, ◌%◌, ◌^◌, ◌<◌, ◌≤◌, ◌≡◌, ◌==◌, Bool, inl, inr, refl, sym, ap, ◌∙◌, subst,
  some, none, Option, List, [], ◌∷◌, ◌++◌, true, false, arith, length, drop, ltb, Bool-cases,
  ltb→lt, ltb→le, ne→==,
}
use cpp_relational_db.Storage.Bytes.{Page}
use cpp_relational_db.Storage.Disk.{IDiskManager, KeepsPages, invalid_page_id}
use cpp_relational_db.Storage.SlottedPage
use cpp_relational_db.Storage.SlottedPage.{SlottedPage, Span, num_slots, from_buffer, span_bytes}
use cpp_relational_db.Storage.SlottedPage.Contents
use cpp_relational_db.Storage.SlottedPage.Contents.{
  contents, live_record, get-contents, length-contents,
}
use cpp_relational_db.Storage.BufferManager.{BufferManager, returned, frame}
use cpp_relational_db.Storage.BufferManager.Invariant.{Preserves}
use cpp_relational_db.Access.HeapFile.{page_in}
use cpp_relational_db.Access.HeapFile.Visit.{
  Ready, Settled, Settled-Ready, Settled-trans, Settled-refl, Opened, request-Opened, release_read,
  Opened-SameBytes,
}
use cpp_relational_db.Access.HeapFile.Chain.{Entry, head_id, IsPageOf, Node, Chain, Chain-Preserves}
use cpp_relational_db.Access.HeapFile.View.{Within}
use cpp_relational_db.Access.HeapFile.Shape.{IsPageOf-SameBytes}
use cpp_relational_db.Access.HeapIterator.{HeapIterator, find_slot, leave_page, seek, end_of}
use cpp_relational_db.Access.HeapIterator.Live.{
  live, live_records, live_from, live_from_zero, live-drop_dead, live-drop_present, live-drop_above,
}

-- Where the inner loop stops: at the next record that is not deleted, or behind the last slot.
data Found (rs : List (List ℕ)) (s : ℕ) : ℕ × Bool → Type 0 where
  at_record :
      {s' : ℕ} (r : List ℕ)
      → live_record rs s' ≡ some r
      → live (drop s rs) ≡ r ∷ live (drop (s' + 1) rs)
      → Found rs s (s', true)
  at_last : {s' : ℕ} → live (drop s rs) ≡ [] → Found rs s (s', false)

module _ (sp : SlottedPage) (v : Contents.IsValid sp) where
  pub few_slots : num_slots sp < 2 ^ 16
  few_slots = omega (arith, v.dir, v.top)

  find_slot-Found :
      (turns s : ℕ) → num_slots sp ≤ turns + s → Found (contents sp) s (find_slot sp turns s)
  unfolding find_slot
  find_slot-Found zero s h =
      at_last (live-drop_above (contents sp) s (omega (arith, h, length-contents sp)))
  find_slot-Found (suc turns) s h = elim (Bool-cases (ltb s (num_slots sp))) [
    | inr over ↦ rw over (
        at_last
          (live-drop_above (contents sp) s (omega (arith, ltb→le _ _ over, length-contents sp))))
    | inl within ↦ rw within (
        go (SlottedPage.get sp s) refl (ltb→lt _ _ within)
          (find_slot-Found turns (suc s) (omega (arith, h))))
  ]
    where
      go :
          (o : Option Span)
          → SlottedPage.get sp s ≡ o
          → s < num_slots sp
          → Found (contents sp) (suc s) (find_slot sp turns (suc s))
          → Found
              (contents sp)
              s
              (elim o [ none ↦ find_slot sp turns ((s + 1) % 2 ^ 16) | some x ↦ (s, true) ])
      go none e l after =
          let dead : live_record (contents sp) s ≡ none =
            sym (get-contents sp s) ∙ ap (Option.map (span_bytes sp)) e in
          let next : (s + 1) % 2 ^ 16 ≡ suc s = omega (arith, l, few_slots) in
          rw next (later (live-drop_dead (contents sp) s dead) after)
        where
          later :
              {p : ℕ × Bool}
              → live (drop s (contents sp)) ≡ live (drop (suc s) (contents sp))
              → Found (contents sp) (suc s) p
              → Found (contents sp) s p
          later e (at_record r a t) = at_record r a (e ∙ t)
          later e (at_last t) = at_last (e ∙ t)
      go (some x) e l after =
          let here : live_record (contents sp) s ≡ some (span_bytes sp x) =
            sym (get-contents sp s) ∙ ap (Option.map (span_bytes sp)) e in
          let up : suc s ≡ s + 1 = omega arith in
          at_record (span_bytes sp x) here (
            subst (λ n. live (drop s (contents sp)) ≡ span_bytes sp x ∷ live (drop n (contents sp)))
              up (live-drop_present (contents sp) s (span_bytes sp x) here))

-- The iterator is at the first of the records `ls` of the chain `es`, or at the end.
abbrev pub Points : ℕ → List Entry → HeapIterator → List (List ℕ) → Type 0
Points heap [] it ls = (it ≡ end_of heap) × (ls ≡ [])
Points heap (e ∷ es) it ls =
    (it ≡ record { heap = heap; page = e.id; slot = it.slot; has_next = true })
    × (r : List ℕ) × (live_record e.records it.slot ≡ some r)
    × (ls ≡ r ∷ live_from (e ∷ es) (it.slot + 1))

module _ {D : Type 0} (dm : IDiskManager D) {Stores : D → ℕ → Page → Type 0}
    (k : KeepsPages dm Stores) where
  -- `b'` has what `b` had, and the iterator is at the first of the records `ls` in what is left of
  -- the chain `from`.
  pub record Reached (b : BufferManager D) (heap : ℕ) (from : List Entry) (ls : List (List ℕ))
      (it : HeapIterator) (b' : BufferManager D) : Type 0 where
    pub settled : Settled k b b'
    pub kept : Preserves Stores b b'
    pub pages : List Entry
    pub chain : Chain k b' pages invalid_page_id
    pub points : Points heap pages it ls
    pub fewer : length pages ≤ length from
    pub part : (p : ℕ) → Within p pages → Within p from

  abbrev pub at_slot : ℕ → List Entry → ℕ → HeapIterator
  at_slot heap es s = record {
    heap = heap;
    page = head_id es invalid_page_id;
    slot = s;
    has_next = false;
  }

  abbrev Seeks : ℕ → BufferManager D → ℕ → List Entry → ℕ → Type 0
  Seeks turns b heap es s =
      (it : HeapIterator) × (b' : BufferManager D) × (seek dm turns (at_slot heap es s) b
        ≡ returned (some tt) (it, b'))
      × Reached b heap es (live_from es s) it b'

  module _ (turns : ℕ) (b : BufferManager D) (heap : ℕ) (e : Entry) (es : List Entry) (s : ℕ)
      (r : Ready b) (n : Node k b e (head_id es invalid_page_id))
      (c : Chain k b (e ∷ es) invalid_page_id) (f : ℕ) (b₁ : BufferManager D)
      (o : Opened dm k b e.id r n.is_id f b₁) where
    pub shape : IsPageOf e (head_id es invalid_page_id) (frame b₁ f).bytes
    shape =
        IsPageOf-SameBytes e (head_id es invalid_page_id) n.page (frame b₁ f).bytes n.shape
          (Opened-SameBytes dm k b e.id r n.is_id f b₁ o n.page n.holds)

    abbrev pub stop : ℕ × Bool
    stop = find_slot (page_in b₁ f) (num_slots (page_in b₁ f) - s) s

    stop-Found : Found e.records s stop
    stop-Found =
        subst (λ rs. Found rs s stop) shape.records
          (find_slot-Found (page_in b₁ f) shape.valid _ s (omega arith))

    pub seek_turn :
        seek dm (suc turns) (at_slot heap (e ∷ es) s) b
        ≡ leave_page dm (seek dm turns) (at_slot heap (e ∷ es) s) b₁ f stop
    unfolding seek
    seek_turn =
        let proper : (e.id == invalid_page_id) ≡ false =
          ne→== e.id invalid_page_id (λ q. omega (arith, q, n.is_id)) in
        rw (proper, o.requested)

    -- The end of a turn, with the loop on the rest of the chain.
    leave_page_lem :
        ((b₂ : BufferManager D)
          → Ready b₂
          → Chain k b₂ es invalid_page_id
          → Seeks turns b₂ heap es 0)
        → (p : ℕ × Bool) → stop ≡ p
        → Found e.records s p
        → Seeks (suc turns) b heap (e ∷ es) s
    unfolding leave_page
    leave_page_lem rest (at, true) eq (at_record r' a t) =
        let (b₂, e₂, settled, kept, bytes) = release_read dm k b e.id r n.is_id f b₁ o in
        (
          record { heap = heap; page = e.id; slot = at; has_next = true },
          b₂,
          seek_turn
              ∙ ap (leave_page dm (seek dm turns) (at_slot heap (e ∷ es) s) b₁ f) eq
              ∙ (rw e₂),
          record {
            settled = settled;
            kept = kept;
            pages = e ∷ es;
            chain =
                Chain-Preserves k (λ p u. rw settled.akin.ids u) kept (e ∷ es) invalid_page_id c;
            points = (refl, r', a, ap (λ rs. rs ++ live_records es) t);
            fewer = omega arith;
            part = λ p w. w;
          },
        )
    leave_page_lem rest (at, false) eq (at_last t) =
        let (b₂, e₂, settled, kept, bytes) = release_read dm k b e.id r n.is_id f b₁ o in
        let c₂ = Chain-Preserves k (λ p u. rw settled.akin.ids u) kept (e ∷ es) invalid_page_id c in
        let (it, b₃, e₃, m) = rest b₂ (Settled-Ready k settled r) c₂.2 in
        (
          it,
          b₃,
          seek_turn
              ∙ ap (leave_page dm (seek dm turns) (at_slot heap (e ∷ es) s) b₁ f) eq
              ∙ (rw (shape.linked, e₂) e₃),
          record {
            settled = Settled-trans k settled m.settled;
            kept = λ p x h. m.kept p x (kept p x h);
            pages = m.pages;
            chain = m.chain;
            points =
                subst (λ ls. Points heap m.pages it ls)
                  (live_from_zero es ∙ sym (ap (λ rs. rs ++ live_records es) t)) m.points;
            fewer = omega (arith, m.fewer);
            part = λ p w. inr (m.part p w);
          },
        )

  -- A chain that is left starts at its first slot.
  abbrev pub Starts : List Entry → ℕ → Type 0
  Starts [] s = s ≡ 0
  Starts (e ∷ es) s = Unit {0}

  pub seek-Reached :
      (turns : ℕ) (b : BufferManager D) (heap : ℕ) (es : List Entry) (s : ℕ)
      → length es < turns
      → Ready b
      → Chain k b es invalid_page_id
      → Starts es s
      → Seeks turns b heap es s
  unfolding seek
  seek-Reached zero b heap es s l r c start = absurd (omega (arith, l))
  seek-Reached (suc turns) b heap [] s l r c start = (
    end_of heap,
    b,
    rw start,
    record {
      settled = Settled-refl k r;
      kept = λ p x h. h;
      pages = [];
      chain = tt;
      points = (refl, refl);
      fewer = omega arith;
      part = λ p w. w;
    },
  )
  seek-Reached (suc turns) b heap (e ∷ es) s l r (n, d, c) start =
      let (f, b₁, o) = request-Opened dm k b e.id r n.is_id in
      leave_page_lem turns b heap e es s r n (n, d, c) f b₁ o
        (λ b₂ r₂ c₂. seek-Reached turns b₂ heap es 0 (omega (arith, l)) r₂ c₂ (starts es))
        (stop turns b heap e es s r n (n, d, c) f b₁ o) refl
        (stop-Found turns b heap e es s r n (n, d, c) f b₁ o)
    where
      starts : (es : List Entry) → Starts es 0
      starts [] = refl
      starts (e ∷ es) = tt
