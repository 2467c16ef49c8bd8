-- ===== src/Access/HeapIterator/Next.antt =====
-- `HeapIterator::Next` over a chain whose pages are all in the pool: the record that it returns
-- points into a frame that is not taken for another page.
use mathlib.Core.Option
use cpp_relational_db.Base.{
  ℕ, ◌+◌, ◌<◌, ◌≡◌, inl, refl, ◌∙◌, subst, some, none, Option, List, ◌∷◌, true, length,
}
use cpp_relational_db.Storage.Bytes.{Page}
use cpp_relational_db.Storage.Disk.{IDiskManager, KeepsPages, invalid_page_id}
use cpp_relational_db.Storage.SlottedPage
use cpp_relational_db.Storage.SlottedPage.{from_buffer, span_bytes}
use cpp_relational_db.Storage.SlottedPage.Contents.{live_record}
use cpp_relational_db.Storage.BufferManager.{BufferManager, returned}
use cpp_relational_db.Storage.BufferManager.Invariant.{SameCache}
use cpp_relational_db.Storage.BufferManager.Pins.{SameCache-trans}
use cpp_relational_db.Access.HeapFile.{Record, shown, page_in, get}
use cpp_relational_db.Access.HeapFile.Visit.{
  Ready, Settled-Ready, Settled-trans, request-Opened, release_read,
}
use cpp_relational_db.Access.HeapFile.Chain.{Entry, head_id, Chain, Chain-Preserves}
use cpp_relational_db.Access.HeapIterator.{
  HeapIterator, value_of, advance, dereference, next_record,
}
use cpp_relational_db.Access.HeapIterator.Live.{live_from}
use cpp_relational_db.Access.HeapIterator.Dereference.{dereference_lem, slot_after}
use cpp_relational_db.Access.HeapIterator.Advance.{Reached, seek-Reached}
use cpp_relational_db.Access.HeapIterator.Cached.{
  InPool, InPool-SameCache, shown-SameCache, visit_still, seek_still,
}

module _ {D : Type 0} (dm : IDiskManager D) {Stores : D → ℕ → Page → Type 0}
    (k : KeepsPages dm Stores) where
  module _ (b : BufferManager D) (heap : ℕ) (e : Entry) (es : List Entry) (s : ℕ) (r : Ready b)
      (c : Chain k b (e ∷ es) invalid_page_id) (h : InPool b (e ∷ es)) where
    abbrev here : HeapIterator
    here = record { heap = heap; page = e.id; slot = s; has_next = true }

    value_still :
        (o : Option Record) (b₂ b' : BufferManager D) (rec : Record)
        → SameCache b b₂
        → value_of o b₂ ≡ returned rec b'
        → SameCache b b'
    value_still none b₂ b' rec same eq = cc
    value_still (some q) b₂ b' rec same eq =
        let done : returned q b₂ ≡ returned rec b' = eq in
        let is : b₂ ≡ b' = cc in subst (SameCache b) is same

    dereference_still :
        (rec : Record) (b' : BufferManager D)
        → dereference dm here b ≡ returned rec b'
        → SameCache b b'
    unfolding dereference get
    dereference_still rec b' eq =
        let n = c.0 in
        let (f, b₁, o) = request-Opened dm k b e.id r n.is_id in
        let (b₂, e₂, settled, kept, bytes) = release_read dm k b e.id r n.is_id f b₁ o in
        let (g, t) = h e.id (inl refl) in
        let same = visit_still dm k b b₁ b₂ e.id g f r.valid t o.requested e₂ in
        let got : get dm b (record { page_id = e.id; slot_id = s })
            ≡ returned
                (Option.map
                  (λ q. record {
                    rid = record { page_id = e.id; slot_id = s };
                    frame = f;
                    span = q;
                  })
                  (SlottedPage.get (page_in b₁ f) s))
                b₂ =
          rw (o.requested, e₂) refl in
        value_still _ b₂ b' rec same (rw got at eq)

    -- `Next` at a record: what it returns shows the record's bytes, also after `Advance`.
    pub next_record_lem :
        (turns : ℕ) (x : List ℕ)
        → length (e ∷ es) < turns
        → live_record e.records s ≡ some x
        → (rec : Record) × (it : HeapIterator) × (b' : BufferManager D) × (next_record dm turns here
              b
            ≡ returned (some rec) (it, b'))
          × (shown b' rec ≡ x)
          × Reached dm k b heap (e ∷ es) (live_from (e ∷ es) (s + 1)) it b'
          × SameCache b b'
    unfolding next_record advance
    next_record_lem turns x l live =
        let (rec, b₁, e₁, settled, kept, shows) =
          dereference_lem dm k b heap e (head_id es invalid_page_id) s r c.0 x live in
        let same₁ = dereference_still rec b₁ e₁ in
        let r₁ = Settled-Ready k settled r in
        let c₁ = Chain-Preserves k (λ p u. rw settled.akin.ids u) kept (e ∷ es) invalid_page_id c in
        let slot = slot_after dm k b heap e (head_id es invalid_page_id) s r c.0 x live in
        let (it, b₂, e₂, m) = seek-Reached dm k turns b₁ heap (e ∷ es) (s + 1) l r₁ c₁ tt in
        let same₂ =
          seek_still dm k turns b₁ heap (e ∷ es) (s + 1) r₁ c₁ (InPool-SameCache (e ∷ es) same₁ h)
            it b₂ e₂ in
        (
          rec,
          it,
          b₂,
          rw (e₁, slot, e₂) refl,
          shown-SameCache rec same₂ ∙ shows,
          record {
            settled = Settled-trans k settled m.settled;
            kept = λ p y held. m.kept p y (kept p y held);
            pages = m.pages;
            chain = m.chain;
            points = m.points;
            fewer = m.fewer;
            part = m.part;
          },
          SameCache-trans same₁ same₂,
        )
