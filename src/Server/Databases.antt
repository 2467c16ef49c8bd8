-- ===== src/Server/Databases.antt =====
-- The life of a database: created, opened and deleted.
use cpp_relational_db.Base.{ℕ, ◌≡◌, ap, ◌∙◌, true, false, List, none, some}
use cpp_relational_db.Catalog.CatalogTables.Lookup.{same_text_self}
use cpp_relational_db.Server.Names.{find-erase}
use cpp_relational_db.Server.{
  FileSystem, DbServer, find, make_path, add_database, open_uncached, open_database,
  create_uncached, create_database, delete_database,
}

-- What the server relies on: a file is not there once `remove` of its path has returned.
pub record RemovesFiles {F D : Type 0} (fs : FileSystem F D) : Type 0 where
  pub removed : (f : F) (p : List ℕ) → fs.exists (fs.remove f p) p ≡ false

module _ {F D : Type 0} (fs : FileSystem F D) (s : DbServer F D) (name : List ℕ) where
  abbrev path : List ℕ
  path = make_path name

  -- A database that the server has open: it is opened as it is, and not created.
  open_cached :
      (dm : D)
      → find s.cache name ≡ some dm
      → (open_database fs s name ≡ (s, some dm)) × (create_database fs s name ≡ (s, false))
  unfolding open_database create_database
  open_cached dm h = (rw (h, open_database), rw (h, create_database))

  -- One that it does not have open and that has no file.
  open_missing :
      find s.cache name ≡ none
      → fs.exists s.files path ≡ false
      → (open_database fs s name ≡ (s, none))
        × (create_database fs s name ≡ ((add_database fs s name).0, true))
        × (delete_database fs s name ≡ (s, false))
  unfolding open_database create_database delete_database open_uncached create_uncached
  open_missing h e = (
    rw (h, e, open_database, open_uncached),
    rw (h, e, create_database, create_uncached),
    rw (h, delete_database),
  )

  -- One that it does not have open and that has a file.
  open_closed :
      find s.cache name ≡ none
      → fs.exists s.files path ≡ true
      → (open_database fs s name ≡ ((add_database fs s name).0, some (add_database fs s name).1))
        × (create_database fs s name ≡ (s, false))
        × (delete_database fs s name ≡ (s, false))
  unfolding open_database create_database delete_database open_uncached create_uncached
  open_closed h e = (
    rw (h, e, open_database, open_uncached),
    rw (h, e, create_database, create_uncached),
    rw (h, delete_database),
  )

find-add_database :
    {F D : Type 0} (fs : FileSystem F D) (s : DbServer F D) (name : List ℕ)
    → find (add_database fs s name).0.cache name ≡ some (add_database fs s name).1
unfolding add_database
find-add_database fs s name = rw (same_text_self name)

-- After a deletion of an open database the server has it neither open nor as a file.
delete-find :
    {F D : Type 0} (fs : FileSystem F D) (k : RemovesFiles fs) (s : DbServer F D) (name : List ℕ)
    (dm : D)
    → find s.cache name ≡ some dm
    → ((delete_database fs s name).1 ≡ true)
      × (find (delete_database fs s name).0.cache name ≡ none)
      × (fs.exists (delete_database fs s name).0.files (make_path name) ≡ false)
unfolding delete_database
delete-find fs k s name dm h = (
  rw (h, delete_database),
  rw (h, delete_database) (find-erase s.cache name name ∙ rw (same_text_self name)),
  rw (h, delete_database) (k.removed s.files (make_path name)),
)

-- On a file system in which a file is not there once it was removed, a database that is not open and
-- has no file cannot be opened or deleted, and is created; then it is open, cannot be created again,
-- and is deleted; then it cannot be opened, and can be created again.
pub create-delete_database :
    {F D : Type 0} (fs : FileSystem F D) (k : RemovesFiles fs) (s : DbServer F D) (name : List ℕ)
    → find s.cache name ≡ none
    → fs.exists s.files (make_path name) ≡ false
    → (open_database fs s name ≡ (s, none))
      × (delete_database fs s name ≡ (s, false))
      × (s₁ : DbServer F D) × (dm : D) × (create_database fs s name ≡ (s₁, true))
      × (open_database fs s₁ name ≡ (s₁, some dm))
      × (create_database fs s₁ name ≡ (s₁, false))
      × (s₂ : DbServer F D) × (delete_database fs s₁ name ≡ (s₂, true))
      × (open_database fs s₂ name ≡ (s₂, none))
      × ((create_database fs s₂ name).1 ≡ true)
create-delete_database fs k s name h e =
    let (no_open, created, no_delete) = open_missing fs s name h e in
    let (s₁, dm) = add_database fs s name in
    let there = find-add_database fs s name in
    let (opened, not_created) = open_cached fs s₁ name dm there in
    let (deleted, gone, no_file) = delete-find fs k s₁ name dm there in
    let s₂ = (delete_database fs s₁ name).0 in
    let (no_open', created', _) = open_missing fs s₂ name gone no_file in
    (
      no_open,
      no_delete,
      s₁,
      dm,
      created,
      opened,
      not_created,
      s₂,
      ap (λ r. (s₂, r)) deleted,
      no_open',
      ap (λ r. r.1) created',
    )
