-- ===== src/Access/HeapFile/Apart.antt =====
-- Chains of pages beside one another: an operation on one leaves the other.
use cpp_relational_db.Base.{ℕ, sym, List, [], ◌∷◌}
use cpp_relational_db.Storage.Bytes.{Page}
use cpp_relational_db.Storage.Disk.{IDiskManager, KeepsPages}
use cpp_relational_db.Storage.BufferManager.{BufferManager}
use cpp_relational_db.Storage.BufferManager.Invariant.{Holds}
use cpp_relational_db.Access.HeapFile.Ids.{InUse}
use cpp_relational_db.Access.HeapFile.Chain.{Entry, Away, Chain, Node-kept}

-- No page of `es` is in `fs`.
abbrev pub Apart : List Entry → List Entry → Type 0
Apart [] fs = Unit {0}
Apart (e ∷ es) fs = Away e.id fs × Apart es fs

pub Apart-nil : (es : List Entry) → Apart es []
Apart-nil [] = tt
Apart-nil (e ∷ es) = (tt, Apart-nil es)

Apart-cons :
    (es : List Entry) (f : Entry) (fs : List Entry) → Away f.id es → Apart es fs → Apart es (f ∷ fs)
Apart-cons [] f fs w a = tt
Apart-cons (e ∷ es) f fs (ne, w) (v, a) = (((λ s. ne (sym s)), v), Apart-cons es f fs w a)

pub Apart-sym : (es fs : List Entry) → Apart es fs → Apart fs es
Apart-sym [] fs a = Apart-nil fs
Apart-sym (e ∷ es) fs (v, a) = Apart-cons fs e es v (Apart-sym es fs a)

module _ {D : Type 0} {dm : IDiskManager D} {Stores : D → ℕ → Page → Type 0}
    (k : KeepsPages dm Stores) (b : BufferManager D) where
  -- What holds of every page that is in use and outside of `fs` holds of the pages of a chain that
  -- is apart from it.
  pub Chain-Apart :
      (es fs gs : List Entry) (end : ℕ)
      → ((p : ℕ) → InUse (k.ids b.disk) p → Away p fs → Away p gs)
      → Chain k b es end
      → Apart es fs
      → Apart es gs
  Chain-Apart [] fs gs end h c a = tt
  Chain-Apart (e ∷ es) fs gs end h (n, d, c) (v, a) =
      (h e.id n.used v, Chain-Apart es fs gs end h c a)

  -- A chain stays when the pages in use that are outside of another keep their contents.
  pub Chain-beside :
      (b' : BufferManager D) (es fs : List Entry) (end : ℕ)
      → ((p : ℕ) → InUse (k.ids b.disk) p → InUse (k.ids b'.disk) p)
      → ((p : ℕ) (x : Page)
          → InUse (k.ids b.disk) p
          → Away p fs
          → Holds Stores b p x
          → Holds Stores b' p x)
      → Chain k b es end
      → Apart es fs
      → Chain k b' es end
  Chain-beside b' [] fs end more h c a = tt
  Chain-beside b' (e ∷ es) fs end more h (n, d, c) (v, a) =
      (Node-kept k more (λ x. h e.id x n.used v) n, d, Chain-beside b' es fs end more h c a)
