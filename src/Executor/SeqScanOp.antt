-- ===== src/Executor/SeqScanOp.antt =====
-- src/executor/operators/seq_scan_op.cpp, over the relations of include/model/relation.h and
-- src/model/relation.cpp. The record that `HeapIterator::Next` returns points into a frame of the
-- buffer pool; its bytes are those that the frame has when `Decode` reads them, after `Advance`.
use cpp_relational_db.Base.{
  ℕ, ◌+◌, ◌<◌, ◌≡◌, refl, subst, List, [], ◌∷◌, Option, none, some, if◌then◌else◌, ◌>>=◌, length,
  arith,
}
use cpp_relational_db.Storage.Bytes.{Page}
use cpp_relational_db.Storage.Disk.{IDiskManager, KeepsPages, invalid_page_id}
use cpp_relational_db.Storage.BufferManager.{BufferManager, Outcome, returned, thrown}
use cpp_relational_db.Access.HeapFile.{HeapFile, Record, shown}
use cpp_relational_db.Access.HeapFile.Visit.{Ready, Settled-Ready}
use cpp_relational_db.Access.HeapFile.Chain.{Entry, head_id, Chain}
use cpp_relational_db.Access.HeapIterator.{HeapIterator, begin, next_record}
use cpp_relational_db.Access.HeapIterator.Live.{live_records, live_from}
use cpp_relational_db.Access.HeapIterator.Advance.{Points}
use cpp_relational_db.Access.HeapIterator.Loop.{begin-Reached}
use cpp_relational_db.Access.HeapIterator.Cached.{InPool, InPool-SameCache, begin_still}
use cpp_relational_db.Access.HeapIterator.Next.{next_record_lem}
use cpp_relational_db.Catalog.Types.{Tuple}
use cpp_relational_db.Executor.Operator.{Operator, Streams, Produces}

-- `_hf` with its address, and the virtual `Decode` on the bytes that a record shows.
pub record Relation : Type 0 where
  pub heap : ℕ
  pub hf : HeapFile
  pub decode : List ℕ → Option Tuple

-- `_iter` and the buffer pool that it works on; nothing once an exception has left a call.
abbrev pub ScanState : Type 0 → Type 0
ScanState D = Option (HeapIterator × BufferManager D)

module _ {D : Type 0} (dm : IDiskManager D) (turns : ℕ) (rel : Relation) where
  abbrev opened : Outcome (HeapIterator × BufferManager D) (Option (Unit {0})) → ScanState D
  opened (returned none s) = none
  opened (returned (some tt) s) = some s
  opened (thrown e s) = none

  -- `Relation::Begin`
  unfoldable pub open_scan : ScanState D → ScanState D
  open_scan none = none
  open_scan (some (it, b)) = opened (begin dm turns rel.heap rel.hf b)

  abbrev decoded :
      Outcome (HeapIterator × BufferManager D) (Option Record) → Option (Option Tuple × ScanState D)
  decoded (returned none s) = none
  decoded (returned (some rec) s) = rel.decode (shown s.1 rec) >>= λ tup. some (some tup, some s)
  decoded (thrown e s) = none

  unfoldable pub next_scan : ScanState D → Option (Option Tuple × ScanState D)
  next_scan none = none
  next_scan (some (it, b)) =
      let taken = decoded (next_record dm turns it b) in
      if it.has_next then taken else some (none, some (it, b))

  unfoldable pub seq_scan_op : Operator (ScanState D)
  seq_scan_op = record { open_op = open_scan; next = λ fuel s. next_scan s; close_op = λ s. s }

-- The records decode to the tuples, one by one.
abbrev pub Decodes : (List ℕ → Option Tuple) → List (List ℕ) → List Tuple → Type 0
Decodes decode [] [] = Unit {0}
Decodes decode [] (t ∷ ts) = ⊥
Decodes decode (r ∷ rs) [] = ⊥
Decodes decode (r ∷ rs) (t ∷ ts) = (decode r ≡ some t) × Decodes decode rs ts

module _ {D : Type 0} (dm : IDiskManager D) {Stores : D → ℕ → Page → Type 0}
    (k : KeepsPages dm Stores) (turns : ℕ) (rel : Relation) where
  scan-Streams :
      (fuel : ℕ) (b : BufferManager D) (es : List Entry) (it : HeapIterator) (ls : List (List ℕ))
      (ts : List Tuple)
      → Ready b
      → Chain k b es invalid_page_id
      → InPool b es
      → length es < turns
      → Points rel.heap es it ls
      → Decodes rel.decode ls ts
      → Streams (seq_scan_op dm turns rel) fuel (some (it, b)) ts
  unfolding seq_scan_op next_scan
  scan-Streams fuel b [] it ls [] r c h l (e, none_left) d = (some (it, b), rw e refl)
  scan-Streams fuel b [] it ls (t ∷ ts) r c h l (e, none_left) d =
      absurd (subst (λ q. Decodes rel.decode q (t ∷ ts)) none_left d)
  scan-Streams fuel b (e ∷ es) it ls [] r c h l (here, x, live, left) d =
      absurd (subst (λ q. Decodes rel.decode q []) left d)
  scan-Streams fuel b (e ∷ es) it ls (t ∷ ts) r c h l (here, x, live, left) d =
      let (first, rest) = subst (λ q. Decodes rel.decode q (t ∷ ts)) left d in
      let (rec, it', b', eq, shows, m, same) =
        next_record_lem dm k b rel.heap e es it.slot r c h turns x l live in
      (
        some (it', b'),
        rw (here, eq, shows, first) refl,
        scan-Streams fuel b' m.pages it' (live_from (e ∷ es) (it.slot + 1)) ts
            (Settled-Ready k m.settled r) m.chain
            (InPool-SameCache m.pages same (λ p w. h p (m.part p w))) (omega (arith, m.fewer, l))
            m.points rest,
      )

  -- On a valid pool over a disk that keeps pages, with an unpinned frame and room for a pin on
  -- every frame, where the pages of a relation's chain are all in the pool: a scan, with more
  -- turns for the loop of `Advance` than pages, produces what `Decode` makes of the chain's
  -- records that are not deleted, in their order.
  pub seq_scan_op-Produces :
      (fuel : ℕ) (b : BufferManager D) (es : List Entry) (it : HeapIterator) (ts : List Tuple)
      → Ready b
      → Chain k b es invalid_page_id
      → InPool b es
      → length es < turns
      → rel.hf.first_page_id ≡ head_id es invalid_page_id
      → Decodes rel.decode (live_records es) ts
      → Produces (seq_scan_op dm turns rel) fuel (some (it, b)) ts
  unfolding seq_scan_op open_scan
  seq_scan_op-Produces fuel b es it ts r c h l first d =
      let (it', b', eq, m) = begin-Reached dm k turns b rel.heap rel.hf es r c l first in
      let same = begin_still dm k turns b rel.heap rel.hf es r c first h it' b' eq in
      rw eq (
        scan-Streams fuel b' m.pages it' (live_records es) ts (Settled-Ready k m.settled r) m.chain
          (InPool-SameCache m.pages same (λ p w. h p (m.part p w))) (omega (arith, m.fewer, l))
          m.points d)
