-- ===== src/Catalog/CatalogTables.antt =====
-- include/catalog/catalog_table_base.h, catalog_tables.h and src/catalog/catalog_tables.cpp: the
-- catalog's tables, relations whose rows go through their codecs. A record that does not decode,
-- whose decoder would read past its bytes, gives no result.
pub mod Lookup
pub mod Rows
pub mod Inserted
mod Tests
use cpp_relational_db.Base.{
  ℕ, ◌==◌, ◌&&◌, ◌>>=◌, ◌++◌, Bool, true, false, List, [], ◌∷◌, Option, none, some, ◌⊎◌, inl, inr,
  if◌then◌else◌,
}
use cpp_relational_db.Storage.Disk.{IDiskManager}
use cpp_relational_db.Storage.BufferManager.{BufferManager, Outcome, returned}
use cpp_relational_db.Access.HeapFile
use cpp_relational_db.Access.HeapFile.{HeapFile, Rid, and_then}
use cpp_relational_db.Access.HeapIterator.{for_each}
use cpp_relational_db.Catalog.Types.{TableInfo, ColumnInfo, TypeInfo, Tuple, Value, Schema}
use cpp_relational_db.Catalog.TableInfoCodec
use cpp_relational_db.Catalog.ColumnInfoCodec
use cpp_relational_db.Catalog.TypeInfoCodec

-- What a `CatalogTable` uses of its codec.
pub record CatalogCodec (Row : Type 0) : Type 0 where
  pub encode : Row → List ℕ
  pub decode : List ℕ → Option Row
  pub to_values : Row → List Value
  pub schema : Schema

abbrev pub tables_codec : CatalogCodec TableInfo
tables_codec = record {
  encode = TableInfoCodec.encode;
  decode = TableInfoCodec.decode;
  to_values = TableInfoCodec.to_values;
  schema = TableInfoCodec.get_schema;
}

abbrev pub attributes_codec : CatalogCodec ColumnInfo
attributes_codec = record {
  encode = ColumnInfoCodec.encode;
  decode = ColumnInfoCodec.decode;
  to_values = ColumnInfoCodec.to_values;
  schema = ColumnInfoCodec.get_schema;
}

abbrev pub types_codec : CatalogCodec TypeInfo
types_codec = record {
  encode = TypeInfoCodec.encode;
  decode = TypeInfoCodec.decode;
  to_values = TypeInfoCodec.to_values;
  schema = TypeInfoCodec.get_schema;
}

-- `CatalogTable::Decode` on a record's bytes.
unfoldable pub decode_row : {Row : Type 0} → CatalogCodec Row → List ℕ → Option Tuple
decode_row codec bytes = codec.decode bytes >>= λ row.
    some (record { values = codec.to_values row; schema = codec.schema })

-- `==` of strings and of UUIDs.
abbrev pub same_text : List ℕ → List ℕ → Bool
same_text [] [] = true
same_text [] (y ∷ ys) = false
same_text (x ∷ xs) [] = false
same_text (x ∷ xs) (y ∷ ys) = x == y && same_text xs ys

-- The body of the loop of `Lookup`, which returns the table that it was to find.
unfoldable pub lookup_body : List ℕ → Unit {0} → List ℕ → Option (TableInfo ⊎ Unit {0})
lookup_body table_name acc bytes = TableInfoCodec.decode bytes >>= λ table.
    some (if same_text table.table_name table_name then inl table else inr acc)

unfoldable pub columns_body :
    List ℕ → List ColumnInfo → List ℕ → Option (List ColumnInfo ⊎ List ColumnInfo)
columns_body table_id res bytes = ColumnInfoCodec.decode bytes >>= λ col.
    some (inr (if same_text col.table_id table_id then res ++ col ∷ [] else res))

unfoldable pub types_body : List TypeInfo → List ℕ → Option (List TypeInfo ⊎ List TypeInfo)
types_body res bytes = TypeInfoCodec.decode bytes >>= λ type. some (inr (res ++ type ∷ []))

-- What `Lookup` returns after its loop, and the other two after theirs.
abbrev pub found_table : Option (TableInfo ⊎ Unit {0}) → Option (Option TableInfo)
found_table none = none
found_table (some (inl table)) = some (some table)
found_table (some (inr acc)) = some none

abbrev pub collected : {A : Type 0} → Option (A ⊎ A) → Option A
collected none = none
collected (some (inl res)) = some res
collected (some (inr res)) = some res

module _ {D : Type 0} (dm : IDiskManager D) (turns : ℕ) where
  -- `CatalogTable::Insert`, through `Relation::InsertRaw`.
  unfoldable pub insert_row :
      {Row : Type 0}
      → CatalogCodec Row
      → HeapFile
      → BufferManager D
      → Row
      → Outcome (HeapFile × BufferManager D) (Option (Option Rid))
  insert_row codec hf b row = HeapFile.insert dm turns hf b (codec.encode row)

  module _ (n heap : ℕ) (hf : HeapFile) (b : BufferManager D) where
    unfoldable pub lookup : List ℕ → Outcome (BufferManager D) (Option (Option TableInfo))
    lookup table_name =
        and_then (for_each dm (lookup_body table_name) turns n heap hf b tt)
          (λ o b'. returned (found_table o) b')

    unfoldable pub get_columns : List ℕ → Outcome (BufferManager D) (Option (List ColumnInfo))
    get_columns table_id =
        and_then (for_each dm (columns_body table_id) turns n heap hf b [])
          (λ o b'. returned (collected o) b')

    unfoldable pub get_types : Outcome (BufferManager D) (Option (List TypeInfo))
    get_types =
        and_then (for_each dm types_body turns n heap hf b []) (λ o b'. returned (collected o) b')
