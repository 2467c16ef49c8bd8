-- ===== src/Server.antt =====
-- include/server/server.h and src/server/server.cpp: the databases of a server, one file each.
-- The file system is a parameter: `directory_iterator`, `exists` and `remove` of `std::filesystem`, and the constructor
-- of `DiskManager`, which opens the file at a path or creates it. The cache is an association list
-- whose newest entry stands first. A database name and a path are the bytes of their characters.
pub mod Names
pub mod Databases
mod Tests
use cpp_relational_db.Base.{
  ℕ, ◌==◌, ◌&&◌, ◌≡◌, ◌≢◌, ◌++◌, ◌∙◌, ◌⊎◌, inl, inr, refl, sym, ap, Bool, true, false, List, [],
  ◌∷◌, Option, none, some, if◌then◌else◌, ==_self, ==→eq, Bool-cases,
}
use cpp_relational_db.Catalog.CatalogTables.{same_text}

-- An entry of a directory: `is_regular_file`, whether its path's extension is ".db", the path's stem
-- and the path.
pub record DirEntry : Type 0 where
  pub is_regular : Bool
  pub is_db : Bool
  pub stem : List ℕ
  pub path : List ℕ

-- `F` is the state of the file system, `D` an open database; `entries` are those of the data path.
pub record FileSystem (F D : Type 0) : Type 0 where
  pub entries : F → List DirEntry
  pub exists : F → List ℕ → Bool
  pub remove : F → List ℕ → F
  pub new_disk_manager : F → List ℕ → F × D

pub record DbServer (F D : Type 0) : Type 0 where
  pub files : F
  pub cache : List (List ℕ × D)

-- `_cache.find`, and `_cache.erase`.
abbrev pub find : {D : Type 0} → List (List ℕ × D) → List ℕ → Option D
find [] name = none
find (e ∷ es) name = if same_text e.0 name then some e.1 else find es name

abbrev pub erase : {D : Type 0} → List (List ℕ × D) → List ℕ → List (List ℕ × D)
erase [] name = []
erase (e ∷ es) name = let rest = erase es name in if same_text e.0 name then rest else e ∷ rest

-- `std::format("{}/{}.db", config::DATA_PATH, db_name)`; the data path is "data/".
unfoldable pub make_path : List ℕ → List ℕ
make_path db_name = 100 ∷ 97 ∷ 116 ∷ 97 ∷ 47 ∷ 47 ∷ [] ++ db_name ++ 46 ∷ 100 ∷ 98 ∷ []

module _ {F D : Type 0} (fs : FileSystem F D) where
  -- The loop of `Init`; an entry of a name that is in the cache takes its place.
  unfoldable pub add_entries : DbServer F D → List DirEntry → DbServer F D
  add_entries s [] = s
  add_entries s (e ∷ es) =
      let (files, dm) = fs.new_disk_manager s.files e.path in
      let added : DbServer F D = record {
        files = files;
        cache = (e.stem, dm) ∷ erase s.cache e.stem;
      } in
      add_entries (if e.is_regular && e.is_db then added else s) es

  unfoldable pub init_server : DbServer F D → DbServer F D
  init_server s = add_entries s (fs.entries s.files)

  -- A disk manager is made for the path, and goes to the cache.
  unfoldable pub add_database : DbServer F D → List ℕ → DbServer F D × D
  add_database s db_name =
      let (files, dm) = fs.new_disk_manager s.files (make_path db_name) in
      (record { files = files; cache = (db_name, dm) ∷ s.cache }, dm)

  unfoldable pub open_uncached : DbServer F D → List ℕ → DbServer F D × Option D
  open_uncached s db_name =
      let (s', dm) = add_database s db_name in
      if fs.exists s.files (make_path db_name) then (s', some dm) else (s, none)

  unfoldable pub open_database : DbServer F D → List ℕ → DbServer F D × Option D
  open_database s db_name = elim (find s.cache db_name) [
    | some dm ↦ (s, some dm)
    | none ↦ open_uncached s db_name
  ]

  unfoldable pub create_uncached : DbServer F D → List ℕ → DbServer F D × Bool
  create_uncached s db_name =
      let (s', dm) = add_database s db_name in
      if fs.exists s.files (make_path db_name) then (s, false) else (s', true)

  unfoldable pub create_database : DbServer F D → List ℕ → DbServer F D × Bool
  create_database s db_name = elim (find s.cache db_name) [
    | some dm ↦ (s, false)
    | none ↦ create_uncached s db_name
  ]

  unfoldable pub delete_database : DbServer F D → List ℕ → DbServer F D × Bool
  delete_database s db_name = elim (find s.cache db_name) [
    | none ↦ (s, false)
    | some dm ↦ (
      record { files = fs.remove s.files (make_path db_name); cache = erase s.cache db_name },
      true,
    )
  ]
