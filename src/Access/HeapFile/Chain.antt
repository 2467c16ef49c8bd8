-- ===== src/Access/HeapFile/Chain.antt =====
-- The chain of a heap file's pages, as the records it stands for.
use cpp_relational_db.Base.{ℕ, ◌≡◌, ◌≢◌, refl, sym, subst, List, [], ◌∷◌, ◌++◌}
use cpp_relational_db.Storage.Bytes.{Page}
use cpp_relational_db.Storage.Disk.{IDiskManager, KeepsPages, IsPageId}
use cpp_relational_db.Storage.SlottedPage.{from_buffer, free_space}
use cpp_relational_db.Storage.SlottedPage.Contents
use cpp_relational_db.Storage.SlottedPage.Contents.{contents}
use cpp_relational_db.Storage.BufferManager.{BufferManager}
use cpp_relational_db.Storage.BufferManager.Invariant.{Holds}
use cpp_relational_db.Access.HeapFile.{next_page_id, size_of_heap_page_header}
use cpp_relational_db.Access.HeapFile.Ids.{InUse}

-- A page of the chain: its id, the bytes free in it, and its records.
pub record Entry : Type 0 where
  pub id : ℕ
  pub room : ℕ
  pub records : List (List ℕ)

-- The id of the first page of a chain, or what stands behind its last.
abbrev pub head_id : List Entry → ℕ → ℕ
head_id [] end = end
head_id (e ∷ es) end = e.id

abbrev pub Away : ℕ → List Entry → Type 0
Away p [] = Unit {0}
Away p (e ∷ es) = (p ≢ e.id) × Away p es

abbrev pub last_of : Entry → List Entry → Entry
last_of e [] = e
last_of e (f ∷ fs) = last_of f fs

-- The page that an entry stands for.
pub record IsPageOf (e : Entry) (next : ℕ) (x : Page) : Type 0 where
  pub valid : Contents.IsValid (from_buffer x size_of_heap_page_header)
  pub records : contents (from_buffer x size_of_heap_page_header) ≡ e.records
  pub room : free_space (from_buffer x size_of_heap_page_header) ≡ e.room
  pub linked : next_page_id x ≡ next

pub Away-append : (p : ℕ) (es fs : List Entry) → Away p es → Away p fs → Away p (es ++ fs)
Away-append p [] fs a c = c
Away-append p (e ∷ es) fs (ne, a) c = (ne, Away-append p es fs a c)

module _ {D : Type 0} {dm : IDiskManager D} {Stores : D → ℕ → Page → Type 0}
    (k : KeepsPages dm Stores) where
  -- An entry's page as clients of the pool see it.
  pub record Node (b : BufferManager D) (e : Entry) (next : ℕ) : Type 0 where
    pub page : Page
    pub holds : Holds Stores b e.id page
    pub is_id : IsPageId e.id
    pub used : InUse (k.ids b.disk) e.id
    pub shape : IsPageOf e next page

  -- The pages of the entries hold them, each links to the next and the last to `end`, and no page
  -- is there twice.
  abbrev pub Chain : BufferManager D → List Entry → ℕ → Type 0
  Chain b [] end = Unit {0}
  Chain b (e ∷ es) end = Node b e (head_id es end) × Away e.id es × Chain b es end

  module _ {b b' : BufferManager D}
      (more : (p : ℕ) → InUse (k.ids b.disk) p → InUse (k.ids b'.disk) p) where
    pub Node-kept :
        {e : Entry} {next : ℕ}
        → ((x : Page) → Holds Stores b e.id x → Holds Stores b' e.id x)
        → Node b e next
        → Node b' e next
    Node-kept {e} h n = record {
      page = n.page;
      holds = h n.page n.holds;
      is_id = n.is_id;
      used = more e.id n.used;
      shape = n.shape;
    }

    -- A chain stays when every page but one outside of it keeps its contents.
    pub Chain-kept :
        (pid : ℕ)
        → ((p : ℕ) (x : Page) → p ≢ pid → Holds Stores b p x → Holds Stores b' p x)
        → (es : List Entry) (end : ℕ) → Away pid es
        → Chain b es end
        → Chain b' es end
    Chain-kept pid h [] end a c = tt
    Chain-kept pid h (e ∷ es) end (ne, a) (n, d, c) =
        (Node-kept (λ x. h e.id x (λ s. ne (sym s))) n, d, Chain-kept pid h es end a c)

    pub Chain-Preserves :
        ((p : ℕ) (x : Page) → Holds Stores b p x → Holds Stores b' p x)
        → (es : List Entry) (end : ℕ) → Chain b es end
        → Chain b' es end
    Chain-Preserves h [] end c = tt
    Chain-Preserves h (e ∷ es) end (n, d, c) =
        (Node-kept (λ x. h e.id x) n, d, Chain-Preserves h es end c)

    -- The last page gets another successor.
    pub Chain-relink :
        (e : Entry) (es : List Entry) (end end' : ℕ)
        → ((p : ℕ) (x : Page) → p ≢ (last_of e es).id → Holds Stores b p x → Holds Stores b' p x)
        → Node b' (last_of e es) end'
        → Chain b (e ∷ es) end
        → Chain b' (e ∷ es) end'
    Chain-relink e [] end end' h l c = (l, tt, tt)
    Chain-relink e (f ∷ fs) end end' h l (n, d, c) =
        (Node-kept (λ x. h e.id x (last_ne e.id f fs d)) n, d, Chain-relink f fs end end' h l c)
      where
        last_ne : (p : ℕ) (f : Entry) (fs : List Entry) → Away p (f ∷ fs) → p ≢ (last_of f fs).id
        last_ne p f [] (ne, a) = ne
        last_ne p f (g ∷ gs) (ne, a) = last_ne p g gs a

  pub Chain-last :
      (b : BufferManager D) (e : Entry) (es : List Entry) (end : ℕ)
      → Chain b (e ∷ es) end
      → Node b (last_of e es) end
  Chain-last b e [] end (n, _, _) = n
  Chain-last b e (f ∷ fs) end (n, d, c) = Chain-last b f fs end c

  -- A page that is not in use is not in the chain.
  pub Chain-Away :
      (b : BufferManager D) (p : ℕ) (es : List Entry) (end : ℕ)
      → ¬ InUse (k.ids b.disk) p
      → Chain b es end
      → Away p es
  Chain-Away b p [] end u c = tt
  Chain-Away b p (e ∷ es) end u (n, d, c) =
      (λ s. u (subst (λ q. InUse (k.ids b.disk) q) (sym s) n.used), Chain-Away b p es end u c)

  pub Chain-snoc :
      (b : BufferManager D) (es : List Entry) (f : Entry) (end : ℕ)
      → Away f.id es
      → Chain b es f.id
      → Node b f end
      → Chain b (es ++ f ∷ []) end
  Chain-snoc b [] f end a c n = (n, tt, tt)
  Chain-snoc b (e ∷ es) f end (ne, a) (m, d, c) n = (
    subst (λ p. Node b e p) (head_snoc es) m,
    Away-append e.id es (f ∷ []) d ((λ s. ne (sym s)), tt),
    Chain-snoc b es f end a c n,
  )
    where
      head_snoc : (es : List Entry) → head_id es f.id ≡ head_id (es ++ f ∷ []) end
      head_snoc [] = refl
      head_snoc (e ∷ es) = refl
