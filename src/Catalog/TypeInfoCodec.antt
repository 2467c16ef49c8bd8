-- ===== src/Catalog/TypeInfoCodec.antt =====
-- src/catalog/catalog_codec.cpp, TypeInfoCodec.
use cpp_relational_db.Base.{
  ℕ, ◌^◌, ◌<◌, ◌≡◌, List, [], ◌∷◌, ◌++◌, Option, some, ◌>>=◌, length, arith,
}
use cpp_relational_db.Util.Data.{
  write_uint, write_string, read_uint, read_string, le_bytes, string_bytes, write_uint_lem,
  write_string_lem, read_uint-Sits, read_string-Sits, le_value-le_bytes4, le_value-le_bytes2,
  Sits-three, length-le_bytes,
}
use cpp_relational_db.Catalog.Types.{
  TypeInfo, Value, Schema, uint, string, page_id, types_catalog_schema,
}

unfoldable pub encode : TypeInfo → List ℕ
encode row =
    let buf = write_uint 4 [] row.type_id in
    let buf = write_uint 2 buf row.size in write_string buf row.type_name

unfoldable pub decode : List ℕ → Option TypeInfo
decode bytes = do
  type_id ← read_uint 4 bytes 0
  size ← read_uint 2 bytes type_id.1
  type_name ← read_string bytes size.1
  some (record { type_id = type_id.0; size = size.0; type_name = type_name.0 })

-- A 16-bit size converts to the signed 32-bit alternative of `Value`, by integral promotion.
unfoldable pub to_values : TypeInfo → List Value
to_values row = uint row.type_id ∷ page_id row.size ∷ string row.type_name ∷ []

abbrev pub get_schema : Schema
get_schema = types_catalog_schema

-- The rows that the types of the source admit, with a name whose length a 32-bit count holds.
pub record Fits (row : TypeInfo) : Type 0 where
  pub type_id : row.type_id < 2 ^ 32
  pub size : row.size < 2 ^ 16
  pub type_name : length row.type_name < 2 ^ 32

encode_eq :
    (row : TypeInfo)
    → encode row ≡ (le_bytes 4 row.type_id ++ le_bytes 2 row.size) ++ string_bytes row.type_name
unfolding encode
encode_eq row =
    let a = write_uint 4 [] row.type_id in
    rw (
      write_string_lem (write_uint 2 a row.size) row.type_name,
      write_uint_lem 2 a row.size,
      write_uint_lem 4 [] row.type_id,
    )

-- A type's row that is encoded and decoded is the row, whenever its integers fit their widths and
-- its name's length fits 32 bits.
pub decode-encode_type_info : (row : TypeInfo) → Fits row → decode (encode row) ≡ some row
unfolding decode
decode-encode_type_info row f =
    let s =
      Sits-three (le_bytes 4 row.type_id) (le_bytes 2 row.size) (string_bytes row.type_name) 4 6
        (length-le_bytes 4 row.type_id) (omega (arith, length-le_bytes 2 row.size)) in
    rw (
      encode_eq row,
      read_uint-Sits 4 _ 0 row.type_id s.0,
      le_value-le_bytes4 row.type_id f.type_id,
      read_uint-Sits 2 _ 4 row.size s.1,
      le_value-le_bytes2 row.size f.size,
      read_string-Sits _ 6 row.type_name f.type_name s.2,
    )

pub encode_nonempty : (row : TypeInfo) → 0 < length (encode row)
unfolding encode write_string write_uint
encode_nonempty row = omega arith
