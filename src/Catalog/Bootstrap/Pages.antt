-- ===== src/Catalog/Bootstrap/Pages.antt =====
-- The pages that `Catalog::BootstrapCatalogs` of src/catalog/catalog.cpp takes from an empty disk:
-- the header and the first page of each catalog table.
use cpp_relational_db.Base.{ℕ, ◌+◌, ◌^◌, ◌<◌, ◌≡◌, refl, ap, ◌∙◌, List, [], ◌∷◌, none, arith}
use cpp_relational_db.Storage.Bytes.{Page}
use cpp_relational_db.Storage.Disk.{IDiskManager, KeepsPages, PageIds, take_id, invalid_page_id}
use cpp_relational_db.Storage.BufferManager.{BufferManager, returned}
use cpp_relational_db.Storage.BufferManager.Invariant.{Holds, on_disk}
use cpp_relational_db.Access.HeapFile.{allocate}
use cpp_relational_db.Access.HeapFile.Ids.{IsSound, InUse}
use cpp_relational_db.Access.HeapFile.Visit.{Ready}
use cpp_relational_db.Access.HeapFile.Chain.{Entry, Chain}
use cpp_relational_db.Access.HeapFile.Apart.{Chain-beside}
use cpp_relational_db.Access.HeapFile.Shape.{blank}
use cpp_relational_db.Access.HeapFile.Append.{Ready-disk, allocate_ids}
use cpp_relational_db.Access.HeapFile.Insert.{Inserted}
use cpp_relational_db.Catalog.Operations.{
  Catalog, root_page_id, header_page, take_page, root_page, write_header,
}
use cpp_relational_db.Catalog.RootPage.{take_page_lem, root_page-Inserted}

-- The ids below `n` are in use.
abbrev pub below : ℕ → PageIds
below n = record { free = []; next = n }

below-IsSound : (n : ℕ) → n < 2 ^ 31 → IsSound (below n)
below-IsSound n l = record { given = λ p h. cc; once = tt; left = l }

module _ {D : Type 0} (dm : IDiskManager D) {Stores : D → ℕ → Page → Type 0}
    (k : KeepsPages dm Stores) (turns : ℕ) where
  -- The pool can serve requests, the ids below `n` are in use, and the header page is page 0.
  pub record Headed (n : ℕ) (b : BufferManager D) : Type 0 where
    pub ready : Ready b
    pub ids : k.ids b.disk ≡ below n
    pub header : Holds Stores b root_page_id header_page

  pub Headed-IsSound :
      {n : ℕ} {b : BufferManager D} → n < 2 ^ 31 → Headed n b → IsSound (k.ids b.disk)
  Headed-IsSound {n} l h = rw h.ids (below-IsSound n l)

  pub Headed-InUse :
      {n : ℕ} {b : BufferManager D} → Headed n b → (p : ℕ) → p < n → InUse (k.ids b.disk) p
  Headed-InUse h p l = rw h.ids (l, refl)

  -- The header page is taken and written.
  header_lem :
      (c : Catalog D)
      → Ready c.bm
      → k.ids c.bm.disk ≡ below 0
      → c.bm.page_table root_page_id ≡ none
      → (c₀ : Catalog D) × (b : BufferManager D) × (take_page dm turns c root_page_id
          ≡ returned tt c₀)
        × (write_header dm turns c₀ ≡ record c { bm = b })
        × Headed 1 b
  unfolding take_id allocate
  header_lem c r ids vacant =
      let b₀ = (allocate dm c.bm).0 in
      let d = dm.write_page b₀.disk root_page_id header_page in
      (
        record c { bm = b₀ },
        record b₀ { disk = d },
        take_page_lem dm k turns c root_page_id (ap (λ s. (take_id s).1) ids),
        refl,
        record {
          ready = Ready-disk c.bm r d;
          ids =
              k.ids-write b₀.disk root_page_id header_page
              ∙ allocate_ids dm k c.bm
              ∙ ap (λ s. (take_id s).0) ids;
          header = on_disk vacant (k.writes b₀.disk root_page_id header_page (omega arith));
        },
      )

  -- A table's first page is taken and initialised.
  root_lem :
      (c : Catalog D) (n : ℕ)
      → Headed (1 + n) c.bm
      → n < 2 ^ 30
      → (b : BufferManager D) × (root_page dm turns c (1 + n) ≡ returned tt (record c { bm = b }))
        × Headed (2 + n) b
        × Inserted dm k 1 c.bm [] (blank (1 + n) ∷ []) b
  unfolding take_id
  root_lem c n h l =
      let (b, eq, i, ids) =
        root_page-Inserted dm k turns c (1 + n) h.ready (Headed-IsSound (omega (arith, l)) h)
          (ap (λ s. (take_id s).1) h.ids) in
      (
        b,
        eq,
        record {
          ready = i.ready;
          ids = ids ∙ ap (λ s. (take_id s).0) h.ids ∙ ap below (omega (arith, l));
          header = i.others root_page_id header_page (Headed-InUse h 0 (omega arith)) tt h.header;
        },
        i,
      )

  -- A page that was initialised before stays.
  still :
      (b b' : BufferManager D) (p : ℕ) (fs : List Entry)
      → Inserted dm k 1 b [] fs b'
      → Chain k b (blank p ∷ []) invalid_page_id
      → Chain k b' (blank p ∷ []) invalid_page_id
  still b b' p fs i ch =
      Chain-beside k b b' (blank p ∷ []) [] invalid_page_id i.grown.more i.others ch (tt, tt)

  -- All four pages.
  pub pages_lem :
      (c : Catalog D)
      → Ready c.bm
      → k.ids c.bm.disk ≡ below 0
      → c.bm.page_table root_page_id ≡ none
      → (c₀ : Catalog D) × (b₁ : BufferManager D) × (b₂ : BufferManager D) × (b₃ : BufferManager D)
        × (take_page dm turns c root_page_id ≡ returned tt c₀)
        × (root_page dm turns (write_header dm turns c₀) 1 ≡ returned tt (record c { bm = b₁ }))
        × (root_page dm turns (record c { bm = b₁ }) 2 ≡ returned tt (record c { bm = b₂ }))
        × (root_page dm turns (record c { bm = b₂ }) 3 ≡ returned tt (record c { bm = b₃ }))
        × Headed 4 b₃
        × Chain k b₃ (blank 1 ∷ []) invalid_page_id
        × Chain k b₃ (blank 2 ∷ []) invalid_page_id
        × Chain k b₃ (blank 3 ∷ []) invalid_page_id
  pages_lem c r ids vacant =
      let (c₀, b, e, w, h) = header_lem c r ids vacant in
      let (b₁, e₁, h₁, i₁) = root_lem (record c { bm = b }) 0 h (omega arith) in
      let (b₂, e₂, h₂, i₂) = root_lem (record c { bm = b₁ }) 1 h₁ (omega arith) in
      let (b₃, e₃, h₃, i₃) = root_lem (record c { bm = b₂ }) 2 h₂ (omega arith) in
      (
        c₀,
        b₁,
        b₂,
        b₃,
        e,
        ap (λ c. root_page dm turns c 1) w ∙ e₁,
        e₂,
        e₃,
        h₃,
        still b₂ b₃ 1 _ i₃ (still b₁ b₂ 1 _ i₂ i₁.chain),
        still b₂ b₃ 2 _ i₃ i₂.chain,
        i₃.chain,
      )
