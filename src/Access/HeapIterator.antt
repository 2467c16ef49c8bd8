-- ===== src/Access/HeapIterator.antt =====
-- include/access/heap/heap_iterator.h, src/access/heap/heap_iterator.cpp and the end of
-- src/access/heap/heap_file.cpp: the iteration over a heap file's records. An iterator's `_heap` is
-- the heap file's address. A call's bound `turns` on the turns of a loop over pages gives no result
-- when it does not suffice.
pub mod Live
pub mod Advance
pub mod Dereference
pub mod Loop
pub mod Extends
pub mod Cached
pub mod Next
use mathlib.Core.Option
use cpp_relational_db.Base.{
  zero, suc, ℕ, ◌+◌, ◌-◌, ◌%◌, ◌^◌, ◌==◌, Bool, true, false, not, ◌&&◌, List, Option, none, some,
  ltb, if◌then◌else◌, ◌⊎◌, inl, inr,
}
use cpp_relational_db.Storage.Disk.{invalid_page_id, IDiskManager}
use cpp_relational_db.Storage.SlottedPage
use cpp_relational_db.Storage.SlottedPage.{SlottedPage, Span, num_slots}
use cpp_relational_db.Storage.BufferManager.{
  BufferManager, Outcome, returned, thrown, frame, request, release, iterator_at_end, bad_optional,
}
use cpp_relational_db.Access.HeapFile
use cpp_relational_db.Access.HeapFile.{
  HeapFile, Record, shown, and_then, beside, page_in, next_page_id,
}

pub record HeapIterator : Type 0 where
  pub heap : ℕ
  pub page : ℕ
  pub slot : ℕ
  pub has_next : Bool

-- The inner loop of `Advance`, on at most `turns` slots: the slot that it stops at, and whether
-- a record is there.
unfoldable pub find_slot : SlottedPage → ℕ → ℕ → ℕ × Bool
find_slot sp zero slot = (slot, false)
find_slot sp (suc turns) slot =
    let rest = find_slot sp turns ((slot + 1) % 2 ^ 16) in
    let here : ℕ × Bool = elim (SlottedPage.get sp slot) [ none ↦ rest | some s ↦ (slot, true) ] in
    if ltb slot (num_slots sp) then here else (slot, false)

-- `HeapFile::end`
abbrev pub end_of : ℕ → HeapIterator
end_of heap = record { heap = heap; page = invalid_page_id; slot = 0; has_next = false }

-- `.value()`
abbrev value_of : {A S : Type 0} → Option A → S → Outcome S A
value_of none s = thrown bad_optional s
value_of (some a) s = returned a s

-- `_curr_slot++`
abbrev pub step : HeapIterator → HeapIterator
step it = record it { slot = (it.slot + 1) % 2 ^ 16 }

module _ {D : Type 0} (dm : IDiskManager D) where
  -- A turn of the outer loop of `Advance` on a page in a frame, after its inner loop.
  unfoldable pub leave_page :
      (HeapIterator
        → BufferManager D
        → Outcome (HeapIterator × BufferManager D) (Option (Unit {0})))
      → HeapIterator
      → BufferManager D
      → ℕ
      → ℕ × Bool
      → Outcome (HeapIterator × BufferManager D) (Option (Unit {0}))
  leave_page rest it b f (at, true) =
      and_then (beside (record it { slot = at; has_next = true }) (release b it.page))
        (λ _ s. returned (some tt) s)
  leave_page rest it b f (at, false) =
      let next = next_page_id (frame b f).bytes in
      and_then (beside (record it { slot = at }) (release b it.page))
        (λ _ s. rest (record it { page = next; slot = 0 }) s.1)

  unfoldable pub seek :
      ℕ
      → HeapIterator
      → BufferManager D
      → Outcome (HeapIterator × BufferManager D) (Option (Unit {0}))
  seek zero it b = returned none (it, b)
  seek (suc turns) it b =
      let rest : HeapIterator
          → BufferManager D
          → Outcome (HeapIterator × BufferManager D) (Option (Unit {0})) =
        seek turns in
      let turn = and_then (beside it (request dm b it.page)) (λ f s.
        let sp = page_in s.1 f in
        leave_page rest it s.1 f (find_slot sp (num_slots sp - it.slot) it.slot)) in
      if it.page == invalid_page_id then returned (some tt) (it, b) else turn

  unfoldable pub advance :
      ℕ
      → HeapIterator
      → BufferManager D
      → Outcome (HeapIterator × BufferManager D) (Option (Unit {0}))
  advance turns it b = seek turns (record it { has_next = false }) b

  -- The constructor.
  unfoldable pub heap_iterator :
      ℕ
      → HeapIterator
      → BufferManager D
      → Outcome (HeapIterator × BufferManager D) (Option (Unit {0}))
  heap_iterator turns it b =
      let advanced = advance turns it b in
      if it.has_next && not (it.page == invalid_page_id)
      then advanced
      else returned (some tt) (it, b)

  -- `HeapFile::begin`
  unfoldable pub begin :
      ℕ
      → ℕ
      → HeapFile
      → BufferManager D
      → Outcome (HeapIterator × BufferManager D) (Option (Unit {0}))
  begin turns heap hf b =
      let start =
        heap_iterator turns
          (record { heap = heap; page = hf.first_page_id; slot = 0; has_next = true }) b in
      if hf.first_page_id == invalid_page_id then returned (some tt) (end_of heap, b) else start

  -- `operator*`
  unfoldable pub dereference : HeapIterator → BufferManager D → Outcome (BufferManager D) Record
  dereference it b =
      let found =
        and_then (HeapFile.get dm b (record { page_id = it.page; slot_id = it.slot })) value_of in
      if it.has_next then found else thrown iterator_at_end b

  -- `operator++`
  unfoldable pub increment :
      ℕ
      → HeapIterator
      → BufferManager D
      → Outcome (HeapIterator × BufferManager D) (Option (Unit {0}))
  increment turns it b =
      let advanced = advance turns (step it) b in
      if it.has_next then advanced else returned (some tt) (it, b)

  -- `Next`
  unfoldable pub next_record :
      ℕ → HeapIterator → BufferManager D → Outcome (HeapIterator × BufferManager D) (Option Record)
  next_record turns it b =
      let taken = and_then (beside it (dereference it b)) (λ rec s.
        and_then (advance turns (step it) s.1) (λ o s'. returned (Option.map (λ _. rec) o) s')) in
      if it.has_next then taken else thrown iterator_at_end (it, b)

abbrev same_flag : Bool → Bool → Bool
same_flag a c = if a then c else not c

-- `operator==`
unfoldable pub equal_iterators : HeapIterator → HeapIterator → Bool
equal_iterators it other =
    it.heap == other.heap
    && (it.page == other.page && (it.slot == other.slot && same_flag it.has_next other.has_next))

-- The rest of a turn once the iterator was advanced.
abbrev stepped :
    {S B : Type 0}
    → Outcome (HeapIterator × S) (Option (Unit {0}))
    → (HeapIterator → S → Outcome S (Option B))
    → Outcome S (Option B)
stepped (returned none s) k = returned none s.1
stepped (returned (some tt) s) k = k s.0 s.1
stepped (thrown e s) k = thrown e s.1

module _ {D : Type 0} (dm : IDiskManager D) {A R : Type 0} (body : A → List ℕ → Option (R ⊎ A))
    (turns : ℕ) where
  -- The end of a turn, by what the body came to: no result, a `return`, or the next turn.
  unfoldable pub next_turn :
      (HeapIterator → BufferManager D → A → Outcome (BufferManager D) (Option (R ⊎ A)))
      → HeapIterator
      → BufferManager D
      → Option (R ⊎ A)
      → Outcome (BufferManager D) (Option (R ⊎ A))
  next_turn rest it b none = returned none b
  next_turn rest it b (some (inl result)) = returned (some (inl result)) b
  next_turn rest it b (some (inr acc)) =
      stepped (increment dm turns it b) (λ it' b'. rest it' b' acc)

  -- `for (; it != end; ++it)`, on at most `n` turns, with the body on the bytes of `*it`.
  unfoldable pub each_record :
      ℕ → HeapIterator → BufferManager D → A → Outcome (BufferManager D) (Option (R ⊎ A))
  each_record zero it b acc = returned none b
  each_record (suc n) it b acc =
      let rest : HeapIterator → BufferManager D → A → Outcome (BufferManager D) (Option (R ⊎ A)) =
        each_record n in
      let turn =
        and_then (dereference dm it b) (λ rec b'. next_turn rest it b' (body acc (shown b' rec))) in
      if equal_iterators it (end_of it.heap) then returned (some (inr acc)) b else turn

  unfoldable pub for_each :
      ℕ → ℕ → HeapFile → BufferManager D → A → Outcome (BufferManager D) (Option (R ⊎ A))
  for_each n heap hf b acc = stepped (begin dm turns heap hf b) (λ it b'. each_record n it b' acc)
