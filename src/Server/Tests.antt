-- ===== src/Server/Tests.antt =====
-- A server over a file system that knows which paths have a file.
use cpp_relational_db.Base.{
  ℕ, ◌≡◌, Bool, true, false, refl, List, [], ◌∷◌, some, none, if◌then◌else◌,
}
use cpp_relational_db.Catalog.CatalogTables.{same_text}
use cpp_relational_db.Catalog.CatalogTables.Lookup.{same_text_self}
use cpp_relational_db.Server.{FileSystem, DbServer, open_database, create_database, delete_database}
use cpp_relational_db.Server.Databases.{RemovesFiles, create-delete_database}

abbrev Files : Type 0
Files = List ℕ → Bool

abbrev memory : FileSystem Files (List ℕ)
memory = record {
  entries = λ f. [];
  exists = λ f p. f p;
  remove = λ f p q. if same_text p q then false else f q;
  new_disk_manager = λ f p. ((λ q. if same_text p q then true else f q), p);
}

memory-RemovesFiles : RemovesFiles memory
memory-RemovesFiles = record { removed = λ f p. rw (same_text_self p) }

abbrev server : DbServer Files (List ℕ)
server = record { files = λ q. false; cache = [] }

create-delete_database_example :
    (open_database memory server (97 ∷ []) ≡ (server, none))
    × (delete_database memory server (97 ∷ []) ≡ (server, false))
    × (s₁ : DbServer Files (List ℕ)) × (dm : List ℕ) × (create_database memory server (97 ∷ [])
        ≡ (s₁, true))
    × (open_database memory s₁ (97 ∷ []) ≡ (s₁, some dm))
    × (create_database memory s₁ (97 ∷ []) ≡ (s₁, false))
    × (s₂ : DbServer Files (List ℕ)) × (delete_database memory s₁ (97 ∷ []) ≡ (s₂, true))
    × (open_database memory s₂ (97 ∷ []) ≡ (s₂, none))
    × ((create_database memory s₂ (97 ∷ [])).1 ≡ true)
create-delete_database_example =
    create-delete_database memory memory-RemovesFiles server (97 ∷ []) refl refl
