-- ===== src/Access/HeapIterator/Dereference.antt =====
-- What `operator*` of an iterator that is at a record reads.
use mathlib.Core.Option
use cpp_relational_db.Base.{
  zero, suc, ℕ, ◌+◌, ◌%◌, ◌^◌, ◌<◌, ◌≡◌, ap, ◌∙◌, some, none, Option, List, [], ◌∷◌, true, arith,
  length,
}
use cpp_relational_db.Storage.Bytes.{Page}
use cpp_relational_db.Storage.Disk.{IDiskManager, KeepsPages}
use cpp_relational_db.Storage.SlottedPage.{from_buffer}
use cpp_relational_db.Storage.SlottedPage.Contents.{live_record, length-contents}
use cpp_relational_db.Storage.BufferManager.{BufferManager, returned}
use cpp_relational_db.Storage.BufferManager.Invariant.{Preserves}
use cpp_relational_db.Access.HeapFile.{Record, shown, get, size_of_heap_page_header}
use cpp_relational_db.Access.HeapFile.Reads.{get-Read}
use cpp_relational_db.Access.HeapFile.Visit.{Ready, Settled}
use cpp_relational_db.Access.HeapFile.Chain.{Entry, Node}
use cpp_relational_db.Access.HeapIterator.{HeapIterator, dereference}
use cpp_relational_db.Access.HeapIterator.Advance.{few_slots}

live_record_within :
    (rs : List (List ℕ)) (s : ℕ) (r : List ℕ) → live_record rs s ≡ some r → s < length rs
unfolding Option.bind
live_record_within [] zero r h = cc
live_record_within [] (suc s) r h = cc
live_record_within (x ∷ rs) zero r h = omega arith
live_record_within (x ∷ rs) (suc s) r h = omega (arith, live_record_within rs s r h)

module _ {D : Type 0} (dm : IDiskManager D) {Stores : D → ℕ → Page → Type 0}
    (k : KeepsPages dm Stores) where
  module _ (b : BufferManager D) (heap : ℕ) (e : Entry) (next : ℕ) (s : ℕ) (r : Ready b)
      (n : Node k b e next) (x : List ℕ) (h : live_record e.records s ≡ some x) where
    abbrev pub here : HeapIterator
    here = record { heap = heap; page = e.id; slot = s; has_next = true }

    -- The iterator's record is read, and every page stays as it was.
    pub dereference_lem :
        (rec : Record) × (b' : BufferManager D) × (dereference dm here b ≡ returned rec b')
        × Settled k b b'
        × Preserves Stores b b'
        × (shown b' rec ≡ x)
    unfolding dereference
    dereference_lem =
        let (o, b', eq, rd) =
          get-Read dm k b (record { page_id = e.id; slot_id = s }) n.page r.valid n.is_id r.pin_room
            n.holds n.shape.valid r.victim r.victim_within r.victim_free in
        go o b' eq (rd.found ∙ ap (λ rs. live_record rs s) n.shape.records ∙ h)
          (record { valid = rd.valid; pins = rd.pins; akin = rd.akin }) rd.kept
      where
        go :
            (o : Option Record) (b' : BufferManager D)
            → get dm b (record { page_id = e.id; slot_id = s }) ≡ returned o b'
            → Option.map (shown b') o ≡ some x
            → Settled k b b'
            → Preserves Stores b b'
            → (rec : Record) × (b' : BufferManager D) × (dereference dm here b ≡ returned rec b')
              × Settled k b b'
              × Preserves Stores b b'
              × (shown b' rec ≡ x)
        go none b' eq shows settled kept = cc
        go (some rec) b' eq shows settled kept = (rec, b', rw eq, settled, kept, cc)

    pub slot_after : (s + 1) % 2 ^ 16 ≡ s + 1
    slot_after = omega (
      arith,
      live_record_within e.records s x h,
      few_slots _ n.shape.valid,
      length-contents (from_buffer n.page size_of_heap_page_header),
      ap length n.shape.records,
    )
