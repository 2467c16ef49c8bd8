-- ===== src/Storage/Disk.antt =====
-- include/storage/disk_manager/idisk_manager.h: the interface through which the buffer pool reads
-- and writes pages, and what it promises. A `page_id_t`, an `int32_t`, is its bit pattern, below
-- 2 ^ 32; the pages proper have the ids below 2 ^ 31.
use cpp_relational_db.Base.{List, [], ◌∷◌, ◌+◌, ◌%◌, ◌≡◌, ℕ, ◌-◌, ◌^◌, ◌<◌, ◌≢◌}
use cpp_relational_db.Storage.Bytes.{Page, SameBytes}

-- `INVALID_PAGE_ID`, -1
abbrev pub invalid_page_id : ℕ
invalid_page_id = 2 ^ 32 - 1

abbrev pub IsPageId : ℕ → Type 0
IsPageId p = p < 2 ^ 31

-- `read_page d p buf` is the buffer after `ReadPage(p, buf)`, and `allocate_page` returns the page.
pub record IDiskManager (D : Type 0) : Type 0 where
  pub read_page : D → ℕ → Page → Page
  pub write_page : D → ℕ → Page → D
  pub allocate_page : D → D × ℕ
  pub deallocate_page : D → ℕ → D

-- The page ids that a disk gives out: those that were given back, the last first, and then the ids
-- from `next` on.
pub record PageIds : Type 0 where
  pub free : List ℕ
  pub next : ℕ

unfoldable pub take_id : PageIds → PageIds × ℕ
take_id s = elim s.free [
  | [] ↦ (record s { next = (s.next + 1) % 2 ^ 32 }, s.next)
  | id ∷ rest ↦ (record s { free = rest }, id)
]

-- An id is given back.
unfoldable pub give_back : PageIds → ℕ → PageIds
give_back s id = record s { free = id ∷ s.free }

-- What a client relies on: a page that was written, or was there, is read back until it is written
-- again, whatever happens to the others, and ids are given out as `take_id`
-- and taken back as `give_back` says. `Stores d p x` says that page `p` of `d` is `x`.
pub record KeepsPages {D : Type 0} (dm : IDiskManager D) (Stores : D → ℕ → Page → Type 0)
    : Type 0 where
  pub reads : (d : D) (p : ℕ) (x buf : Page) → Stores d p x → SameBytes (dm.read_page d p buf) x
  pub writes : (d : D) (p : ℕ) (x : Page) → IsPageId p → Stores (dm.write_page d p x) p x
  pub keeps :
      (d : D) (p q : ℕ) (x y : Page)
      → IsPageId p
      → p ≢ q
      → Stores d q x
      → Stores (dm.write_page d p y) q x
  pub same : (d : D) (p : ℕ) (x y : Page) → SameBytes x y → Stores d p x → Stores d p y
  pub ids : D → PageIds
  pub ids-write : (d : D) (p : ℕ) (x : Page) → ids (dm.write_page d p x) ≡ ids d
  pub ids-allocate :
      (d : D) → (ids (dm.allocate_page d).0, (dm.allocate_page d).1) ≡ take_id (ids d)
  pub allocate : (d : D) (p : ℕ) (x : Page) → Stores d p x → Stores (dm.allocate_page d).0 p x
  pub ids-deallocate : (d : D) (p : ℕ) → ids (dm.deallocate_page d p) ≡ give_back (ids d) p
  pub deallocate : (d : D) (p q : ℕ) (x : Page) → Stores d p x → Stores (dm.deallocate_page d q) p x
