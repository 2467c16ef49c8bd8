-- ===== src/Model/TableManager.antt =====
-- include/model/table_manager.h, src/model/table_manager.cpp and the rest of src/model/user_table.cpp
-- and src/model/relation.cpp: user tables by name. The cache is an association list whose newest
-- entry stands first.
pub mod Open
pub mod Created
pub mod InsertValues
mod Tests
use cpp_relational_db.Base.{
  ℕ, ◌≡◌, ◌∙◌, refl, sym, ap, Bool, true, List, [], ◌∷◌, Option, none, some, if◌then◌else◌, ==_self,
  Option-cases, inl, inr,
}
use cpp_relational_db.Storage.Disk.{IDiskManager}
use cpp_relational_db.Storage.BufferManager.{
  BufferManager, Outcome, returned, thrown, unknown_table, bad_optional,
}
use cpp_relational_db.Access.HeapFile
use cpp_relational_db.Access.HeapFile.{HeapFile, Rid, open_heap_file, beside}
use cpp_relational_db.Catalog.Types.{TableInfo, RawColumnInfo, Value, Schema}
use cpp_relational_db.Catalog.CatalogTables.{same_text}
use cpp_relational_db.Catalog.Operations.{
  Catalog, and_go, lookup_table, get_table_columns, create_table,
}
use cpp_relational_db.Model.DynamicCodec.{encode}

pub record UserTable : Type 0 where
  pub hf : HeapFile
  pub schema : Schema
  pub table_id : List ℕ

pub record TableManager (D : Type 0) : Type 0 where
  pub cache : List (List ℕ × UserTable)
  pub catalog : Catalog D

-- `_cache[name]`
abbrev pub cached_table : List ℕ → List (List ℕ × UserTable) → Option UserTable
cached_table name [] = none
cached_table name (t ∷ ts) = if same_text t.0 name then some t.1 else cached_table name ts

-- A call on the catalog, as one on the manager.
abbrev pub on_catalog :
    {D A : Type 0} → TableManager D → Outcome (Catalog D) A → Outcome (TableManager D) A
on_catalog tm (returned a c) = returned a (record tm { catalog = c })
on_catalog tm (thrown e c) = thrown e (record tm { catalog = c })

module _ {D : Type 0} (dm : IDiskManager D) (turns : ℕ) where
  -- `UserTable::Insert`; values that the schema does not admit have no encoding.
  unfoldable pub insert_values :
      UserTable
      → BufferManager D
      → List Value
      → Outcome (UserTable × BufferManager D) (Option (Option Rid))
  insert_values table b values = elim (encode values table.schema) [
    | none ↦ returned none (table, b)
    | some bytes ↦ kept table (HeapFile.insert dm turns table.hf b bytes)
  ]
    where
      kept :
          UserTable
          → Outcome (HeapFile × BufferManager D) (Option (Option Rid))
          → Outcome (UserTable × BufferManager D) (Option (Option Rid))
      kept table (returned rid s) = returned rid (record table { hf = s.0 }, s.1)
      kept table (thrown e s) = thrown e (record table { hf = s.0 }, s.1)

  -- `CreateTable`, with the two UUIDs that the catalog draws.
  unfoldable pub create_user_table :
      TableManager D
      → List ℕ
      → List ℕ
      → List ℕ
      → List RawColumnInfo
      → Outcome (TableManager D) (Option (List ℕ))
  create_user_table tm table_id fid table_name columns =
      on_catalog tm (create_table dm turns tm.catalog table_id fid table_name columns)

  -- `heaps` are the addresses of the heap files of `db_tables` and `db_attributes`.
  module _ (n : ℕ) (heaps : ℕ × ℕ) where
    -- `OpenTable` of a table that was looked up: its columns are read, and it goes to the cache.
    unfoldable pub open_found :
        TableManager D → List ℕ → Option TableInfo → Outcome (TableManager D) (Option UserTable)
    open_found tm name none = thrown unknown_table tm
    open_found tm name (some info) =
        and_go (on_catalog tm (get_table_columns dm turns n heaps.1 tm.catalog info.table_id))
          (λ cols tm'.
            let rel : UserTable = record {
              hf = open_heap_file info.heap_file_id info.first_page_id;
              schema = cols;
              table_id = info.table_id;
            } in
            returned (some rel) (record tm' { cache = (name, rel) ∷ tm'.cache }))

    unfoldable pub open_cached :
        TableManager D → List ℕ → Option UserTable → Outcome (TableManager D) (Option UserTable)
    open_cached tm name (some rel) = returned (some rel) tm
    open_cached tm name none =
        and_go (on_catalog tm (lookup_table dm turns n heaps.0 tm.catalog name))
          (λ found tm'. open_found tm' name found)

    unfoldable pub open_table :
        TableManager D → List ℕ → Outcome (TableManager D) (Option UserTable)
    open_table tm name = open_cached tm name (cached_table name tm.cache)
