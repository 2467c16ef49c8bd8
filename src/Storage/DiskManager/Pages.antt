-- ===== src/Storage/DiskManager/Pages.antt =====
-- The pages of the file, and that the disk manager keeps them as its interface promises.
use cpp_relational_db.Base.{
  refl, ◌∙◌, ℕ, ◌+◌, ◌-◌, ◌*◌, ◌<◌, ◌≤◌, ◌≡◌, ◌≢◌, ◌⊎◌, true, arith, lt→ltb, le→leb,
}
use cpp_relational_db.Storage.Bytes.{Page, page_size, SameBytes}
use cpp_relational_db.Storage.Disk.{PageIds, take_id, give_back, IsPageId, KeepsPages}
use cpp_relational_db.Storage.DiskManager.{
  allocate_page, deallocate_page, File, DiskManager, page_offset, can_seek, read_page, write_page,
  write_file, disk_manager,
}

-- The file reaches over page `p`, whose bytes are those of `x`.
pub record Stores (d : DiskManager) (p : ℕ) (x : Page) : Type 0 where
  pub id : IsPageId p
  pub within : p * page_size + page_size ≤ d.db_io.size
  pub bytes : (i : ℕ) → i < page_size → d.db_io.byte (p * page_size + i) ≡ x i

page_offset_lem : (p : ℕ) → IsPageId p → page_offset p ≡ p * page_size
unfolding page_offset
page_offset_lem p h = ground arith

seekable : (p : ℕ) → IsPageId p → can_seek (p * page_size) ≡ true
unfolding can_seek
seekable p h = lt→ltb _ _ (omega arith)

read_page-Stores :
    (d : DiskManager) (p : ℕ) (x buf : Page) → Stores d p x → SameBytes (read_page d p buf) x
unfolding read_page
read_page-Stores d p x buf s i h =
    rw
      (
        page_offset_lem p s.id,
        seekable p s.id,
        lt→ltb i page_size h,
        lt→ltb (p * page_size + i) d.db_io.size (omega (arith, s.within)),
      )
      (s.bytes i h)

write_page_eq :
    (d : DiskManager) (p : ℕ) (x : Page)
    → IsPageId p
    → write_page d p x ≡ record d { db_io = write_file d.db_io (p * page_size) x }
unfolding write_page
write_page_eq d p x h = rw (page_offset_lem p h, seekable p h)

write_file-in :
    (f : File) (o i : ℕ) (x : Page) → i < page_size → (write_file f o x).byte (o + i) ≡ x i
unfolding write_file
write_file-in f o i x h =
    let same : o + i - o ≡ i = omega arith in
    rw (le→leb o (o + i) (omega arith), lt→ltb (o + i) (o + page_size) (omega arith), same)

write_file-out :
    (f : File) (o j : ℕ) (x : Page)
    → (j < o) ⊎ (o + page_size ≤ j)
    → j < f.size
    → (write_file f o x).byte j ≡ f.byte j
unfolding write_file
write_file-out f o j x h l = ground arith

size-write_file :
    (f : File) (o : ℕ) (x : Page)
    → (f.size ≤ (write_file f o x).size) × (o + page_size ≤ (write_file f o x).size)
unfolding write_file
size-write_file f o x = ground arith

write_page-Stores :
    (d : DiskManager) (p : ℕ) (x : Page) → IsPageId p → Stores (write_page d p x) p x
write_page-Stores d p x h = rw (write_page_eq d p x h) (record {
  id = h;
  within = (size-write_file d.db_io (p * page_size) x).1;
  bytes = λ i l. write_file-in d.db_io (p * page_size) i x l;
})

write_page-Stores_ne :
    (d : DiskManager) (p q : ℕ) (x y : Page)
    → IsPageId p
    → p ≢ q
    → Stores d q x
    → Stores (write_page d p y) q x
write_page-Stores_ne d p q x y h ne s = rw (write_page_eq d p y h) (record {
  id = s.id;
  within = omega (arith, s.within, size-write_file d.db_io (p * page_size) y);
  bytes = λ i l.
      rw
        (write_file-out d.db_io (p * page_size) (q * page_size + i) y (omega arith)
          (omega (arith, s.within)))
        (s.bytes i l);
})

Stores_same : (d : DiskManager) (p : ℕ) (x y : Page) → SameBytes x y → Stores d p x → Stores d p y
Stores_same d p x y e s = record {
  id = s.id;
  within = s.within;
  bytes = λ i l. s.bytes i l ∙ e i l;
}

abbrev pub ids_of : DiskManager → PageIds
ids_of d = record { free = d.free_list; next = d.next_page_id }

ids-write_page : (d : DiskManager) (p : ℕ) (x : Page) → ids_of (write_page d p x) ≡ ids_of d
unfolding write_page
ids-write_page d p x = ground arith

ids-allocate_page :
    (d : DiskManager) → (ids_of (allocate_page d).0, (allocate_page d).1) ≡ take_id (ids_of d)
unfolding allocate_page take_id
ids-allocate_page d = ground arith

db_io-allocate_page : (d : DiskManager) → (allocate_page d).0.db_io ≡ d.db_io
unfolding allocate_page
db_io-allocate_page d = ground arith

allocate_page-Stores :
    (d : DiskManager) (p : ℕ) (x : Page) → Stores d p x → Stores (allocate_page d).0 p x
allocate_page-Stores d p x s = record {
  id = s.id;
  within = rw (db_io-allocate_page d) s.within;
  bytes = rw (db_io-allocate_page d) s.bytes;
}

ids-deallocate_page :
    (d : DiskManager) (p : ℕ) → ids_of (deallocate_page d p) ≡ give_back (ids_of d) p
unfolding deallocate_page give_back
ids-deallocate_page d p = refl

deallocate_page-Stores :
    (d : DiskManager) (p q : ℕ) (x : Page) → Stores d p x → Stores (deallocate_page d q) p x
unfolding deallocate_page
deallocate_page-Stores d p q x s = record { id = s.id; within = s.within; bytes = s.bytes }

-- The proofs of what the interface promises, with the page ids for what they are.
pub keeps_pages : (k : KeepsPages disk_manager Stores) × ((d : DiskManager) → k.ids d ≡ ids_of d)
keeps_pages = (
  record {
    reads = read_page-Stores;
    writes = write_page-Stores;
    keeps = write_page-Stores_ne;
    same = Stores_same;
    ids = ids_of;
    ids-write = ids-write_page;
    ids-allocate = ids-allocate_page;
    allocate = allocate_page-Stores;
    ids-deallocate = ids-deallocate_page;
    deallocate = deallocate_page-Stores;
  },
  λ d. refl,
)

-- The disk manager keeps pages as the interface promises: a page with a valid id reads as it was
-- last written, a write to one page leaves every other page of the file as it was, and so do an
-- allocation and a deallocation every page; a deallocated id is the next to be given out, the ids
-- given out are those that were given back, the last first, and then those from the next one on,
-- and reading and writing leave the ids alone.
pub disk_manager-KeepsPages : KeepsPages disk_manager Stores
disk_manager-KeepsPages = keeps_pages.0
