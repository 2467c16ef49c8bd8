-- ===== src/Storage/BufferManager.antt =====
-- include/storage/buffer_manager/{frame,buffer_manager}.h and
-- src/storage/buffer_manager/buffer_manager.cpp: a pool of frames over a disk manager. A `Frame*` is
-- an index into `pool_`, `frame_ptrs_` is the policy's reference to the same pointers, and `int`
-- counters are 32-bit patterns. `Outcome` has the state also where the code throws.
pub mod Frames
pub mod Invariant
pub mod Pins
pub mod Flush
pub mod Evict
pub mod Load
pub mod Request
pub mod Clients
pub mod Release
pub mod FlushAll
pub mod Start
mod Tests
use cpp_relational_db.Base.{
  ℕ, zero, suc, ◌+◌, ◌-◌, ◌%◌, ◌^◌, Bool, true, false, not, Option, none, some, List, [], ◌∷◌, ◌||◌,
  ◌==◌, leb, if◌then◌else◌, length, get_or, set, tabulate, replicate,
}
use cpp_relational_db.Storage.Bytes.{Page}
use cpp_relational_db.Storage.Disk.{IDiskManager, invalid_page_id}
use cpp_relational_db.Storage.FreeList
use cpp_relational_db.Storage.FreeList.{FreeList}
use cpp_relational_db.Storage.ClockPolicy.{
  ClockPolicy, new_clock, choose_victim, record_access, record_load, record_unpin,
}

pub record Frame : Type 0 where
  pub page_id : ℕ
  pub pin_count : ℕ
  pub dirty : ℕ
  pub bytes : Page

pub record BufferManager (D : Type 0) : Type 0 where
  pub page_table : ℕ → Option ℕ
  pub pool : List Frame
  pub free_list : FreeList
  pub policy : ClockPolicy
  pub disk : D

-- The exceptions of the class and of its clients: an iterator past its end, `value()` of an empty
-- optional, a table that is not there, and an assertion that fails.
pub data Error : Type 0 where
  page_not_found pin_count_zero no_candidates pinned_victim : Error
  iterator_at_end bad_optional unknown_table assertion : Error

pub data Outcome (S A : Type 0) : Type 0 where
  returned : A → S → Outcome S A
  thrown : Error → S → Outcome S A

-- `config::BUFFER_POOL_SIZE`
abbrev pub buffer_pool_size : ℕ
buffer_pool_size = 100

abbrev pub new_frame : Page → Frame
new_frame fresh = record { page_id = invalid_page_id; pin_count = 0; dirty = 0; bytes = fresh }

abbrev pub frame : {D : Type 0} → BufferManager D → ℕ → Frame
frame b f = get_or b.pool f (new_frame (λ _. 0))

abbrev pub set_frame : {D : Type 0} → BufferManager D → ℕ → Frame → BufferManager D
set_frame b f fr = record b { pool = set b.pool f fr }

abbrev pub set_page : (ℕ → Option ℕ) → ℕ → Option ℕ → ℕ → Option ℕ
set_page t p o q = if q == p then o else t q

-- `f->pin_count <= 0` of an `int`
abbrev pub not_positive : ℕ → Bool
not_positive n = n == 0 || leb (2 ^ 31) n

abbrev pub add_all : List ℕ → FreeList → FreeList
add_all [] l = l
add_all (f ∷ fs) l = add_all fs (FreeList.add l f)

-- The constructor; `fresh` is what `new char[PAGE_SIZE]` happens to hold.
unfoldable pub new_buffer_manager : {D : Type 0} → ℕ → Page → D → BufferManager D
new_buffer_manager pool_size fresh dm =
    let frame_ptrs = tabulate (λ i. i) pool_size in
    record {
      page_table = λ _. none;
      pool = replicate pool_size (new_frame fresh);
      free_list = add_all frame_ptrs [];
      policy = new_clock frame_ptrs;
      disk = dm;
    }

module _ {D : Type 0} where
  unfoldable pub pin : BufferManager D → ℕ → BufferManager D
  pin b f = set_frame b f (record (frame b f) { pin_count = ((frame b f).pin_count + 1) % 2 ^ 32 })

  unfoldable pub unpin : BufferManager D → ℕ → BufferManager D
  unpin b f =
      set_frame b f
        (record (frame b f) { pin_count = ((frame b f).pin_count + 2 ^ 32 - 1) % 2 ^ 32 })

  unfoldable pub mark_dirty : BufferManager D → ℕ → BufferManager D
  mark_dirty b f = set_frame b f (record (frame b f) { dirty = 1 })

  -- A client's write through `frame->data`.
  unfoldable pub write_data : BufferManager D → ℕ → Page → BufferManager D
  write_data b f x = set_frame b f (record (frame b f) { bytes = x })

  -- The end of `release()`: the policy hears of a frame that lost its last pin.
  unfoldable pub note_unpin : BufferManager D → ℕ → BufferManager D
  note_unpin b f =
      if (frame b f).pin_count == 0 then record b { policy = record_unpin b.policy f } else b

  unfoldable pub release : BufferManager D → ℕ → Outcome (BufferManager D) (Unit {0})
  release b pid = elim (b.page_table pid) [
    | none ↦ thrown page_not_found b
    | some f ↦
        if not_positive (frame b f).pin_count
        then thrown pin_count_zero b
        else returned tt (note_unpin (unpin b f) f)
  ]

module _ {D : Type 0} (dm : IDiskManager D) where
  unfoldable pub read : BufferManager D → ℕ → ℕ → BufferManager D
  read b pid f =
      let fr : Frame = record (frame b f) {
        bytes = dm.read_page b.disk pid (frame b f).bytes;
        page_id = pid;
        dirty = 0;
      } in
      record (set_frame b f fr) { page_table = set_page b.page_table pid (some f) }

  unfoldable pub flush : BufferManager D → ℕ → BufferManager D
  flush b f = record (set_frame b f (record (frame b f) { dirty = 0 })) {
    disk = dm.write_page b.disk (frame b f).page_id (frame b f).bytes;
  }

  -- `if (f->dirty) flush(f)`
  unfoldable pub flush_if_dirty : BufferManager D → ℕ → BufferManager D
  flush_if_dirty b f = if (frame b f).dirty == 0 then b else flush b f

  -- The end of `evict()`: the old mapping goes, and the frame's metadata is reset.
  unfoldable pub unmap : BufferManager D → ℕ → BufferManager D
  unmap b f =
      let p = (frame b f).page_id in
      record (set_frame b f (record (frame b f) { page_id = invalid_page_id; dirty = 0 })) {
        page_table = if p == invalid_page_id then b.page_table else set_page b.page_table p none;
      }

  unfoldable pub evict_victim : BufferManager D → Option ℕ → Outcome (BufferManager D) ℕ
  evict_victim b none = thrown no_candidates b
  evict_victim b (some f) =
      if not ((frame b f).pin_count == 0)
      then thrown pinned_victim b
      else returned f (unmap (flush_if_dirty b f) f)

  unfoldable pub evict : BufferManager D → Outcome (BufferManager D) ℕ
  evict b =
      let (policy, victim) = choose_victim (λ f. (frame b f).pin_count) b.policy in
      evict_victim (record b { policy = policy }) victim

  -- The end of `request()` on a miss, with a frame that holds no page.
  unfoldable pub load : BufferManager D → ℕ → ℕ → Outcome (BufferManager D) ℕ
  load b pid f =
      let b' = read (pin b f) pid f in returned f (record b' { policy = record_load b'.policy f })

  -- `request()` with the top of the free list; the code has seen that there is one.
  unfoldable pub load_free : BufferManager D → ℕ → FreeList × Option ℕ → Outcome (BufferManager D) ℕ
  load_free b pid (rest, none) = thrown no_candidates (record b { free_list = rest })
  load_free b pid (rest, some f) = load (record b { free_list = rest }) pid f

  unfoldable pub load_evicted : ℕ → Outcome (BufferManager D) ℕ → Outcome (BufferManager D) ℕ
  load_evicted pid (returned f b) = load b pid f
  load_evicted pid (thrown e b) = thrown e b

  unfoldable pub request : BufferManager D → ℕ → Outcome (BufferManager D) ℕ
  request b pid = elim (b.page_table pid) [
    | some f ↦ let b' = pin b f in returned f (record b' { policy = record_access b'.policy f })
    | none ↦
        if FreeList.empty b.free_list
        then load_evicted pid (evict b)
        else load_free b pid (FreeList.get b.free_list)
  ]

  -- The loop of `flush_all()`, from frame `i` with `k` frames to go.
  unfoldable pub flush_from : BufferManager D → ℕ → ℕ → BufferManager D
  flush_from b i zero = b
  flush_from b i (suc k) = flush_from (flush_if_dirty b i) (suc i) k

  unfoldable pub flush_all : BufferManager D → BufferManager D
  flush_all b = flush_from b 0 (length b.pool)
