-- ===== src/Storage/DiskManager.antt =====
-- include/storage/disk_manager/disk_manager.h and src/storage/disk_manager/disk_manager.cpp: pages
-- in one file. The file is the `std::fstream` as the class uses it, a length and bytes: a read past
-- the end leaves the rest of the buffer as it was, a write past the end fills the gap with zeros,
-- and a seek to an offset that no file has (from a negative page id) makes the transfer fail.
pub mod Pages
use cpp_relational_db.Base.{
  ℕ, Bool, ◌+◌, ◌-◌, ◌*◌, ◌/◌, ◌%◌, ◌^◌, List, [], ◌∷◌, ◌&&◌, ltb, leb, if◌then◌else◌,
}
use cpp_relational_db.Storage.Bytes.{Page, page_size}
use cpp_relational_db.Storage.Disk.{IDiskManager}

pub record File : Type 0 where
  pub size : ℕ
  pub byte : ℕ → ℕ

pub record DiskManager : Type 0 where
  pub db_io : File
  pub free_list : List ℕ
  pub next_page_id : ℕ

-- `static_cast<size_t>(page_id) * PAGE_SIZE`, with the sign extended.
unfoldable pub page_offset : ℕ → ℕ
page_offset page_id =
    (if ltb page_id (2 ^ 31) then page_id else page_id + 2 ^ 64 - 2 ^ 32) * page_size % 2 ^ 64

-- An offset from 2 ^ 63 on is a negative `std::streamoff`.
unfoldable pub can_seek : ℕ → Bool
can_seek offset = ltb offset (2 ^ 63)

unfoldable pub read_page : DiskManager → ℕ → Page → Page
unfolding page_offset can_seek
read_page dm page_id page_data i =
    let offset = page_offset page_id in
    if can_seek offset && ltb i page_size && ltb (offset + i) dm.db_io.size
    then dm.db_io.byte (offset + i)
    else page_data i

unfoldable pub write_file : File → ℕ → Page → File
write_file f offset page_data = record {
  size = if ltb f.size (offset + page_size) then offset + page_size else f.size;
  byte = λ j.
      if leb offset j && ltb j (offset + page_size)
      then page_data (j - offset)
      else if ltb j f.size
      then f.byte j
      else 0;
}

unfoldable pub write_page : DiskManager → ℕ → Page → DiskManager
unfolding page_offset can_seek write_file
write_page dm page_id page_data =
    let offset = page_offset page_id in
    if can_seek offset then record dm { db_io = write_file dm.db_io offset page_data } else dm

-- `free_list` is a stack: the head of the list is the back of the vector.
unfoldable pub allocate_page : DiskManager → DiskManager × ℕ
allocate_page dm = elim dm.free_list [
  | [] ↦ (record dm { next_page_id = (dm.next_page_id + 1) % 2 ^ 32 }, dm.next_page_id)
  | id ∷ rest ↦ (record dm { free_list = rest }, id)
]

unfoldable pub deallocate_page : DiskManager → ℕ → DiskManager
deallocate_page dm page_id = record dm { free_list = page_id ∷ dm.free_list }

unfoldable pub get_num_pages : DiskManager → ℕ
get_num_pages dm = dm.db_io.size / page_size % 2 ^ 32

-- The constructor on the file that it opened, or created empty.
unfoldable pub open_file : File → DiskManager
unfolding get_num_pages
open_file f =
    let dm : DiskManager = record { db_io = f; free_list = []; next_page_id = 0 } in
    record dm { next_page_id = get_num_pages dm }

abbrev pub disk_manager : IDiskManager DiskManager
disk_manager = record {
  read_page = read_page;
  write_page = write_page;
  allocate_page = allocate_page;
  deallocate_page = deallocate_page;
}
