-- ===== src/Access/HeapFile.antt =====
-- src/access/heap/heap_file.cpp and include/access/record.h: the operations of a heap file.
-- `request` throws and never returns a null pointer, so that the branches on one are never
-- taken. A record's data pointer is the frame and a span of its data. The disk manager
-- of a heap file is that of its buffer manager.
pub mod Pages
pub mod Finish
pub mod Reads
pub mod Visit
pub mod Ids
pub mod Chain
pub mod Shape
pub mod Walk
pub mod Append
pub mod Insert
pub mod Create
pub mod Apart
pub mod Reopen
pub mod View
pub mod At
pub mod History
pub mod Writes
mod Tests
use mathlib.Core.Option
use cpp_relational_db.Base.{suc, zero, some, none, ◌==◌, ℕ, Bool, List, Option, if◌then◌else◌}
use cpp_relational_db.Storage.Bytes.{Page, read_u32, write_u32}
use cpp_relational_db.Storage.Disk.{invalid_page_id, IDiskManager}
use cpp_relational_db.Storage.SlottedPage
use cpp_relational_db.Storage.SlottedPage.{SlottedPage, Span, from_buffer, span_bytes, init}
use cpp_relational_db.Storage.BufferManager.{
  BufferManager, Outcome, returned, thrown, frame, request, release, mark_dirty, write_data,
}

pub record Rid : Type 0 where
  pub page_id : ℕ
  pub slot_id : ℕ

pub record Record : Type 0 where
  pub rid : Rid
  pub frame : ℕ
  pub span : Span

-- `sizeof(HeapPageHeader)`, the offset of the slotted page.
abbrev pub size_of_heap_page_header : ℕ
size_of_heap_page_header = 8

-- What follows a call that may throw.
abbrev pub and_then : {S A B : Type 0} → Outcome S A → (A → S → Outcome S B) → Outcome S B
and_then (returned a s) k = k a s
and_then (thrown e s) k = thrown e s

-- What a call does beside a state of its caller.
abbrev pub beside : {S T A : Type 0} → T → Outcome S A → Outcome (T × S) A
beside t (returned a s) = returned a (t, s)
beside t (thrown e s) = thrown e (t, s)

-- `SlottedPage::FromBuffer(frame->data, sizeof(HeapPageHeader))`
abbrev pub page_in : {D : Type 0} → BufferManager D → ℕ → SlottedPage
page_in b f = from_buffer (frame b f).bytes size_of_heap_page_header

-- The bytes that a record shows while the pool is as it is.
abbrev pub shown : {D : Type 0} → BufferManager D → Record → List ℕ
shown b r = span_bytes (page_in b r.frame) r.span

module _ {D : Type 0} (dm : IDiskManager D) where
  unfoldable pub get : BufferManager D → Rid → Outcome (BufferManager D) (Option Record)
  get b rid = and_then (request dm b rid.page_id) (λ f b'.
      let found = SlottedPage.get (page_in b' f) rid.slot_id in
      and_then (release b' rid.page_id)
        (λ _ b''. returned (Option.map (λ s. record { rid = rid; frame = f; span = s }) found) b''))

  -- The end of `Update` and `Delete`: the page is written, and dirty if the operation succeeded.
  unfoldable pub finish :
      BufferManager D → ℕ → ℕ → SlottedPage × Bool → Outcome (BufferManager D) Bool
  finish b pid f (sp, res) =
      let written = write_data b f sp.bytes in
      and_then (release (if res then mark_dirty written f else written) pid)
        (λ _ b'. returned res b')

  unfoldable pub update : BufferManager D → List ℕ → Rid → Outcome (BufferManager D) Bool
  update b new_data rid =
      and_then (request dm b rid.page_id)
        (λ f b'. finish b' rid.page_id f (SlottedPage.update (page_in b' f) rid.slot_id new_data))

  unfoldable pub delete : BufferManager D → Rid → Outcome (BufferManager D) Bool
  delete b rid =
      and_then (request dm b rid.page_id)
        (λ f b'. finish b' rid.page_id f (SlottedPage.delete (page_in b' f) rid.slot_id))

-- `InitHeapPage`, and the header's field.
unfoldable pub next_page_id : Page → ℕ
next_page_id m = read_u32 m 0

unfoldable pub set_next_page_id : ℕ → Page → Page
set_next_page_id v m = write_u32 m 0 v

unfoldable pub init_heap_page : Page → Page
init_heap_page m = init (set_next_page_id invalid_page_id m) size_of_heap_page_header

pub record HeapFile : Type 0 where
  pub file_id : List ℕ
  pub first_page_id : ℕ

abbrev pub open_heap_file : List ℕ → ℕ → HeapFile
open_heap_file fid first = record { file_id = fid; first_page_id = first }

-- `RID{page, *slot_id}`, if there is a slot.
abbrev pub rid_in : ℕ → Option ℕ → Option Rid
rid_in page slot = Option.map (λ s. record { page_id = page; slot_id = s }) slot

-- How the loop of `Insert` ends: with the record in a page, or with the last page of the chain.
pub data Walked : Type 0 where
  found : Rid → Walked
  ended : ℕ → Walked

module _ {D : Type 0} (dm : IDiskManager D) where
  -- `_dm->AllocatePage()`
  unfoldable pub allocate : BufferManager D → BufferManager D × ℕ
  allocate b = (record b { disk = (dm.allocate_page b.disk).0 }, (dm.allocate_page b.disk).1)

  -- A page is requested, changed through its frame, marked dirty and released.
  unfoldable pub edit : (Page → Page) → BufferManager D → ℕ → Outcome (BufferManager D) (Unit {0})
  edit change b pid =
      and_then (request dm b pid)
        (λ f b'. release (mark_dirty (write_data b' f (change (frame b' f).bytes)) f) pid)

  -- The end of a turn of the loop: the record is in, or the next page is tried.
  unfoldable pub place_in :
      (BufferManager D → ℕ → ℕ → Outcome (BufferManager D) (Option Walked))
      → BufferManager D
      → ℕ
      → ℕ
      → SlottedPage × Option ℕ
      → Outcome (BufferManager D) (Option Walked)
  place_in rest b page f (sp, some slot) =
      and_then (release (mark_dirty (write_data b f sp.bytes) f) page)
        (λ _ b'. returned (some (found (record { page_id = page; slot_id = slot }))) b')
  place_in rest b page f (sp, none) =
      and_then (release b page) (λ _ b'. rest b' (next_page_id (frame b' f).bytes) page)

  -- The loop of `Insert` on at most `turns` pages; `none` when they do not suffice.
  unfoldable pub walk :
      List ℕ → ℕ → BufferManager D → ℕ → ℕ → Outcome (BufferManager D) (Option Walked)
  walk bs zero b page last = returned none b
  walk bs (suc turns) b page last =
      let rest : BufferManager D → ℕ → ℕ → Outcome (BufferManager D) (Option Walked) =
        walk bs turns in
      let turn =
        and_then (request dm b page)
          (λ f b'. place_in rest b' page f (SlottedPage.insert (page_in b' f) bs)) in
      if page == invalid_page_id then returned (some (ended last)) b else turn

  -- A new page is initialised, and gets the record if it fits an empty page.
  unfoldable pub fill_page : List ℕ → BufferManager D → ℕ → Outcome (BufferManager D) (Option Rid)
  fill_page bs b new_page_id = and_then (request dm b new_page_id) (λ f c.
      let c' = mark_dirty (write_data c f (init_heap_page (frame c f).bytes)) f in
      let (sp, slot) = SlottedPage.insert (page_in c' f) bs in
      and_then (release (write_data c' f sp.bytes) new_page_id)
        (λ _ c''. returned (rid_in new_page_id slot) c''))

  -- The last page is linked to a new one.
  unfoldable pub append_page : List ℕ → BufferManager D → ℕ → Outcome (BufferManager D) (Option Rid)
  append_page bs b last =
      let (b', new_page_id) = allocate b in
      and_then (edit (set_next_page_id new_page_id) b' last) (λ _ b''. fill_page bs b'' new_page_id)

  unfoldable pub or_append :
      List ℕ → Option Walked → BufferManager D → Outcome (BufferManager D) (Option (Option Rid))
  or_append bs none b = returned none b
  or_append bs (some (found rid)) b = returned (some (some rid)) b
  or_append bs (some (ended last)) b =
      and_then (append_page bs b last) (λ rid b'. returned (some rid) b')

  -- `Insert` once there is a first page.
  unfoldable pub insert_from :
      ℕ → BufferManager D → List ℕ → ℕ → Outcome (BufferManager D) (Option (Option Rid))
  insert_from turns b bs first =
      and_then (walk bs turns b first invalid_page_id) (λ w b'. or_append bs w b')

  unfoldable pub insert :
      ℕ
      → HeapFile
      → BufferManager D
      → List ℕ
      → Outcome (HeapFile × BufferManager D) (Option (Option Rid))
  insert turns hf b bs =
      let (b', pid) = allocate b in
      let first =
        beside (record hf { first_page_id = pid })
          (and_then (edit init_heap_page b' pid) (λ _ b''. insert_from turns b'' bs pid)) in
      if hf.first_page_id == invalid_page_id
      then first
      else beside hf (insert_from turns b bs hf.first_page_id)

  unfoldable pub create : BufferManager D → List ℕ → Outcome (BufferManager D) HeapFile
  create b fid =
      let (b', pid) = allocate b in
      and_then (edit init_heap_page b' pid) (λ _ b''. returned (open_heap_file fid pid) b'')
