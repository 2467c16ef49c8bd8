-- ===== src/Access/HeapFile/Create.antt =====
-- `HeapFile::Create`, and `HeapFile::Insert` into a heap file that has no page.
use cpp_relational_db.Base.{
  ℕ, ◌+◌, ◌^◌, ◌<◌, ◌≡◌, ◌≢◌, ap, ◌∙◌, subst, some, List, [], ◌∷◌, arith, length,
}
use cpp_relational_db.Storage.Bytes.{Page}
use cpp_relational_db.Storage.Disk.{IDiskManager, KeepsPages, take_id, invalid_page_id}
use cpp_relational_db.Storage.SlottedPage.{size_of_slot}
use cpp_relational_db.Storage.BufferManager.{BufferManager, returned}
use cpp_relational_db.Access.HeapFile.{
  HeapFile, open_heap_file, allocate, edit, insert, create, init_heap_page,
}
use cpp_relational_db.Access.HeapFile.Ids.{
  IsSound, InUse, take_id-IsSound, take_id-Fresh, take_id-Grown, Grown-trans,
}
use cpp_relational_db.Access.HeapFile.Visit.{Ready, Settled-Ready}
use cpp_relational_db.Access.HeapFile.Chain.{Away, Node}
use cpp_relational_db.Access.HeapFile.Shape.{blank, IsPageOf-init_heap_page}
use cpp_relational_db.Access.HeapFile.Insert.{insert_into, Inserted, insert_from-insert_into}
use cpp_relational_db.Access.HeapFile.Append.{
  allocate_id, allocate_ids, allocate-Allocated, Edited, edit-Edited,
}

module _ {D : Type 0} (dm : IDiskManager D) {Stores : D → ℕ → Page → Type 0}
    (k : KeepsPages dm Stores) (b : BufferManager D) (r : Ready b)
    (sound : IsSound (k.ids b.disk)) where
  -- The id of the new page.
  abbrev new_id : ℕ
  new_id = (take_id (k.ids b.disk)).1

  -- A page that was taken and is initialised is a chain of one empty page.
  pub Edited-Inserted :
      (y : Page) (b₁ : BufferManager D)
      → Edited dm k init_heap_page (allocate dm b).0 (allocate dm b).1 y b₁
      → Inserted dm k 1 b [] (blank new_id ∷ []) b₁ × (k.ids b₁.disk ≡ (take_id (k.ids b.disk)).0)
  Edited-Inserted y b₁ ed =
      let (b₀, id) = allocate dm b in
      let a = allocate-Allocated dm k b r sound in
      let node : Node k b₁ (blank id) invalid_page_id = record {
        page = init_heap_page y;
        holds = ed.own;
        is_id = a.fresh.is_id;
        used = rw ed.settled.akin.ids a.fresh.used;
        shape = IsPageOf-init_heap_page id y;
      } in
      (
        rw⁻¹ (allocate_id dm k b) (record {
          ready = Settled-Ready k ed.settled a.ready;
          chain = (node, tt, tt);
          others = λ p z u aw held.
              let ne : p ≢ id = λ s. a.fresh.unused (subst (InUse (k.ids b.disk)) s u) in
              ed.others p z ne (a.kept p z held);
          pins = λ g. ed.settled.pins g ∙ a.pins g;
          grown =
              rw (ed.settled.akin.ids, allocate_ids dm k b) (take_id-Grown (k.ids b.disk) sound);
          own = λ p u aw. (λ s. a.fresh.unused (subst (InUse (k.ids b.disk)) s u), tt);
        }),
        ed.settled.akin.ids ∙ allocate_ids dm k b,
      )

  start_lem :
      (b₁ : BufferManager D) × (edit dm init_heap_page (allocate dm b).0 (allocate dm b).1
        ≡ returned tt b₁)
      × Inserted dm k 1 b [] (blank new_id ∷ []) b₁
      × (k.ids b₁.disk ≡ (take_id (k.ids b.disk)).0)
  start_lem =
      let (b₀, id) = allocate dm b in
      let a = allocate-Allocated dm k b r sound in
      let (y, b₁, e₁, ed) = edit-Edited dm k init_heap_page b₀ id a.ready a.fresh.is_id in
      let (i, same) = Edited-Inserted y b₁ ed in (b₁, e₁, i, same)

  -- On such a pool, over a disk that does not run out of page ids, `Create` returns a heap file
  -- whose chain is one empty page with the next id that the disk gives out; every page in use keeps
  -- its contents and stays outside of the chain, and every frame keeps its pins.
  pub create-Inserted :
      (fid : List ℕ)
      → (b' : BufferManager D) × (create dm b fid ≡ returned (open_heap_file fid new_id) b')
        × Inserted dm k 1 b [] (blank new_id ∷ []) b'
  unfolding create
  create-Inserted fid = let (b₁, e₁, i, _) = start_lem in (b₁, rw⁻¹ (allocate_id dm k b) (rw e₁), i)

  -- On such a pool, over a disk with two page ids left, `Insert` of a record shorter than
  -- 2 ^ 64 - 4 bytes into a heap file without a first page gives it one, with the next id, and does
  -- to the chain of that empty page what `insert_into` says: a record that does not fit leaves two
  -- empty pages. Every page in use keeps its contents and stays outside of the chain, and every frame
  -- keeps its pins.
  pub insert_first :
      (turns : ℕ) (hf : HeapFile) (bs : List ℕ)
      → length bs + size_of_slot < 2 ^ 64
      → 1 < turns
      → (k.ids b.disk).next + 1 < 2 ^ 31
      → hf.first_page_id ≡ invalid_page_id
      → (b' : BufferManager D) × (insert dm turns hf b bs
          ≡ returned
              (some (insert_into (take_id (take_id (k.ids b.disk)).0).1 (blank new_id ∷ []) bs).1)
              (record hf { first_page_id = new_id }, b'))
        × Inserted dm k 2 b []
            (insert_into (take_id (take_id (k.ids b.disk)).0).1 (blank new_id ∷ []) bs).0
            b'
  unfolding insert
  insert_first turns hf bs small enough left first =
      let (b₁, e₁, i, same) = start_lem in
      let sound₁ : IsSound (k.ids b₁.disk) = rw same (take_id-IsSound (k.ids b.disk) sound left) in
      let (b₂, e₂, j) =
        insert_from-insert_into dm k turns b₁ (blank new_id) [] bs small (omega (arith, enough))
          i.ready sound₁ i.chain in
      let fresh = take_id-Fresh (k.ids b.disk) sound in
      (
        b₂,
        rw (first, e₁)
            (rw (allocate_id dm k b, e₂)
              (ap
                (λ t.
                  returned (some (insert_into (take_id t).1 (blank new_id ∷ []) bs).1)
                    (record hf { first_page_id = new_id }, b₂))
                same)),
        record {
          ready = j.ready;
          chain = rw⁻¹ same j.chain;
          others = λ p z u aw held.
              let ne : p ≢ new_id = λ s. fresh.unused (subst (InUse (k.ids b.disk)) s u) in
              j.others p z (rw same (fresh.kept p u)) (ne, tt) (i.others p z u tt held);
          pins = λ g. j.pins g ∙ i.pins g;
          grown = Grown-trans i.grown j.grown;
          own = λ p u aw.
              subst (λ t. Away p (insert_into (take_id t).1 (blank new_id ∷ []) bs).0) same
                (j.own p (i.grown.more p u) (i.own p u tt));
        },
      )
