-- ===== src/Access/HeapFile/Reopen.antt =====
-- A heap file after `FlushAll`, through a new pool over the same disk.
use cpp_relational_db.Base.{
  inl, inr, ℕ, zero, suc, ◌<◌, ◌≡◌, refl, List, arith, get_or, replicate, length-replicate,
}
use cpp_relational_db.Storage.Bytes.{Page}
use cpp_relational_db.Storage.Disk.{IDiskManager, KeepsPages}
use cpp_relational_db.Storage.BufferManager.{
  BufferManager, new_frame, new_buffer_manager, flush_all,
}
use cpp_relational_db.Storage.BufferManager.Invariant.{IsValid, Holds, cached, on_disk}
use cpp_relational_db.Storage.BufferManager.Start.{
  new_buffer_manager-IsValid, new_buffer_manager-Holds,
}
use cpp_relational_db.Storage.BufferManager.FlushAll.{flush_all_lem, flush_all-Akin, flush_all_pins}
use cpp_relational_db.Access.HeapFile.Visit.{Ready, Settled}
use cpp_relational_db.Access.HeapFile.Chain.{Entry, Chain, Chain-Preserves}

pins-replicate :
    (n i : ℕ) (x y : Page) → (get_or (replicate n (new_frame x)) i (new_frame y)).pin_count ≡ 0
pins-replicate zero i x y = refl
pins-replicate (suc n) zero x y = refl
pins-replicate (suc n) (suc i) x y = pins-replicate n i x y

-- A new pool of at least one frame can serve requests.
pub new_buffer_manager-Ready :
    {D : Type 0} (n : ℕ) (fresh : Page) (d : D) → 0 < n → Ready (new_buffer_manager n fresh d)
unfolding new_buffer_manager
new_buffer_manager-Ready n fresh d pos = record {
  valid = new_buffer_manager-IsValid n fresh d pos;
  pin_room = λ g. omega (arith, pins-replicate n g fresh (λ _. 0));
  victim = 0;
  victim_within = omega (arith, pos, length-replicate n (new_frame fresh));
  victim_free = pins-replicate n 0 fresh (λ _. 0);
}

module _ {D : Type 0} (dm : IDiskManager D) {Stores : D → ℕ → Page → Type 0}
    (k : KeepsPages dm Stores) (b : BufferManager D) (v : IsValid b) where
  -- The pool itself goes on as it was.
  pub flush_all-Settled : Settled k b (flush_all dm b)
  flush_all-Settled = record {
    valid = (flush_all_lem dm k b v).0;
    pins = flush_all_pins dm k b v;
    akin = flush_all-Akin dm k b v;
  }

  -- The disk has what the pool holds.
  pub flush_all-Stores :
      (p : ℕ) (x : Page) → Holds Stores (flush_all dm b) p x → Stores (flush_all dm b).disk p x
  flush_all-Stores p x (on_disk t s) = s
  flush_all-Stores p x (cached f t e (inr s)) = s
  flush_all-Stores p x (cached f t e (inl d)) =
      let (w, kept, stored, clean) = flush_all_lem dm k b v in
      absurd (d (clean f (rw (flush_all-Akin dm k b v).size at (w.table p f t).0)))

-- A new pool over a disk that has what the pool `b` holds.
module _ {D : Type 0} {dm : IDiskManager D} {Stores : D → ℕ → Page → Type 0}
    (k : KeepsPages dm Stores) (b : BufferManager D) (d : D)
    (durable : (p : ℕ) (x : Page) → Holds Stores b p x → Stores d p x)
    (same : k.ids d ≡ k.ids b.disk) (n : ℕ) (fresh : Page) where
  pub reopened_ids : k.ids (new_buffer_manager n fresh d).disk ≡ k.ids b.disk
  unfolding new_buffer_manager
  reopened_ids = same

  pub Chain-reopened :
      (es : List Entry) (end : ℕ) → Chain k b es end → Chain k (new_buffer_manager n fresh d) es end
  Chain-reopened es end c =
      Chain-Preserves k (λ p u. rw reopened_ids u)
        (λ p x h. new_buffer_manager-Holds n fresh d Stores p x (durable p x h)) es end c
