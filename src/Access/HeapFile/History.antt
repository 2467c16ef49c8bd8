-- ===== src/Access/HeapFile/History.antt =====
-- The histories of a heap file: sequences of `Insert`, `Get`, `Update` and `Delete`, and the map from
-- record ids to records that they write.
pub mod Slots
pub mod Insertions
pub mod Operations
pub mod Reached
mod Tests
use cpp_relational_db.Base.{
  suc, ℕ, ◌+◌, ◌^◌, ◌<◌, ◌≡◌, ◌⊎◌, Bool, true, false, List, [], ◌∷◌, Option, none, some, length,
}
use cpp_relational_db.Storage.Disk.{IDiskManager}
use cpp_relational_db.Storage.SlottedPage.{size_of_slot}
use cpp_relational_db.Storage.BufferManager.{BufferManager, returned}
use cpp_relational_db.Access.HeapFile.{Rid, Record, HeapFile, insert, get, update, delete}
use cpp_relational_db.Access.HeapFile.View.{with_record}

-- What was written, the last first: an id and its record; a deletion writes the record of no bytes.
abbrev pub History : Type 0
History = List (Rid × List ℕ)

-- The map that it leaves.
abbrev pub value : History → Rid → Option (List ℕ)
value [] r = none
value (w ∷ l) r = with_record w.0 w.1 (value l) r

-- An id on a page from which an insertion gave an id out.
abbrev pub OnPage : Rid → History → Type 0
OnPage r [] = ⊥
OnPage r (w ∷ l) = (r.page_id ≡ w.0.page_id) ⊎ OnPage r l

module _ {D : Type 0} (dm : IDiskManager D) (turns : ℕ) (hf : HeapFile) where
  -- A call on the heap file that returns, and what it adds to the history.
  pub data Step (b : BufferManager D) (l : History) (b' : BufferManager D) : History → Type 0 where
    inserted :
        (bs : List ℕ) (rid : Rid)
        → length bs + size_of_slot < 2 ^ 64
        → insert dm turns hf b bs ≡ returned (some (some rid)) (hf, b')
        → Step b l b' ((rid, bs) ∷ l)
    not_inserted :
        (bs : List ℕ)
        → length bs + size_of_slot < 2 ^ 64
        → insert dm turns hf b bs ≡ returned (some none) (hf, b')
        → Step b l b' l
    updated :
        (rid : Rid) (bs : List ℕ)
        → OnPage rid l
        → update dm b bs rid ≡ returned true b'
        → Step b l b' ((rid, bs) ∷ l)
    not_updated :
        (rid : Rid) (bs : List ℕ)
        → OnPage rid l
        → update dm b bs rid ≡ returned false b'
        → Step b l b' l
    deleted :
        (rid : Rid)
        → OnPage rid l
        → delete dm b rid ≡ returned true b'
        → Step b l b' ((rid, []) ∷ l)
    not_deleted : (rid : Rid) → OnPage rid l → delete dm b rid ≡ returned false b' → Step b l b' l
    got :
        (rid : Rid) (r : Option Record)
        → OnPage rid l
        → get dm b rid ≡ returned r b'
        → Step b l b' l

  -- The pool after `n` calls from `b₀`, with the history.
  pub data Reach (b₀ : BufferManager D) : ℕ → BufferManager D → History → Type 0 where
    start : Reach b₀ 0 b₀ []
    next :
        {n : ℕ} {b b' : BufferManager D} {l l' : History}
        → Reach b₀ n b l
        → Step b l b' l'
        → Reach b₀ (suc n) b' l'

-- A call on a heap file with a history: `Insert` of a record shorter than 2 ^ 64 - 4 bytes, and
-- the others of an id on a page from which an insertion gave an id out.
pub data Call (l : History) : Type 0 where
  inserting : (bs : List ℕ) → length bs + size_of_slot < 2 ^ 64 → Call l
  updating : (rid : Rid) → List ℕ → OnPage rid l → Call l
  deleting : (rid : Rid) → OnPage rid l → Call l
  getting : (rid : Rid) → OnPage rid l → Call l
