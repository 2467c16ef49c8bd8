-- ===== src/Catalog/ColumnInfoCodec.antt =====
-- src/catalog/catalog_codec.cpp, ColumnInfoCodec.
use cpp_relational_db.Base.{
  ℕ, ◌+◌, ◌^◌, ◌<◌, ◌≡◌, List, [], ◌∷◌, ◌++◌, Option, some, ◌>>=◌, length, arith,
}
use cpp_relational_db.Util.Data.{
  write_uint, write_array, write_string, read_uint, read_array, read_string, le_bytes, string_bytes,
  write_uint_lem, write_string_lem, read_uint-Sits, read_array_lem, read_string-Sits,
  le_value-le_bytes4, le_value-le_bytes2, Sits-four, length-string_bytes,
}
use cpp_relational_db.Catalog.Types.{
  ColumnInfo, Value, Schema, uint, string, uuid, page_id, attr_catalog_schema,
}

unfoldable pub encode : ColumnInfo → List ℕ
encode row =
    let buf = write_string [] row.col_name in
    let buf = write_uint 2 buf row.ordinal_position in
    let buf = write_array buf row.table_id in write_uint 4 buf row.type_id

unfoldable pub decode : List ℕ → Option ColumnInfo
decode bytes = do
  col_name ← read_string bytes 0
  ordinal_position ← read_uint 2 bytes col_name.1
  table_id ← read_array 16 bytes ordinal_position.1
  type_id ← read_uint 4 bytes table_id.1
  some (record {
    table_id = table_id.0;
    col_name = col_name.0;
    type_id = type_id.0;
    ordinal_position = ordinal_position.0;
  })

-- A 16-bit position converts to the signed 32-bit alternative of `Value`, by integral promotion.
unfoldable pub to_values : ColumnInfo → List Value
to_values row =
    uuid row.table_id ∷ string row.col_name ∷ uint row.type_id ∷ page_id row.ordinal_position ∷ []

abbrev pub get_schema : Schema
get_schema = attr_catalog_schema

-- The rows that the types of the source admit, with a name whose length a 32-bit count holds.
pub record Fits (row : ColumnInfo) : Type 0 where
  pub table_id : length row.table_id ≡ 16
  pub col_name : length row.col_name < 2 ^ 32
  pub type_id : row.type_id < 2 ^ 32
  pub ordinal_position : row.ordinal_position < 2 ^ 16

encode_eq :
    (row : ColumnInfo)
    → encode row
      ≡ ((string_bytes row.col_name ++ le_bytes 2 row.ordinal_position) ++ row.table_id)
        ++ le_bytes 4 row.type_id
unfolding encode write_array
encode_eq row =
    let a = write_string [] row.col_name in
    let b = write_uint 2 a row.ordinal_position in
    rw (
      write_uint_lem 4 (b ++ row.table_id) row.type_id,
      write_uint_lem 2 a row.ordinal_position,
      write_string_lem [] row.col_name,
    )

-- A column's row that is encoded and decoded is the row, whenever its UUID has 16 bytes, its
-- integers fit their widths and its name's length fits 32 bits.
pub decode-encode_column_info : (row : ColumnInfo) → Fits row → decode (encode row) ≡ some row
unfolding decode
decode-encode_column_info row f =
    let n = 4 + length row.col_name in
    let start : 0 + n ≡ n = omega arith in
    let s =
      Sits-four (string_bytes row.col_name) (le_bytes 2 row.ordinal_position) row.table_id
        (le_bytes 4 row.type_id) n (n + 2) (n + 2 + 16) (length-string_bytes row.col_name)
        (omega arith) (omega (arith, f.table_id)) in
    rw (
      encode_eq row,
      read_string-Sits _ 0 row.col_name f.col_name s.0,
      start,
      read_uint-Sits 2 _ n row.ordinal_position s.1,
      le_value-le_bytes2 row.ordinal_position f.ordinal_position,
      read_array_lem 16 _ (n + 2) row.table_id f.table_id s.2,
      read_uint-Sits 4 _ (n + 2 + 16) row.type_id s.3,
      le_value-le_bytes4 row.type_id f.type_id,
    )

pub encode_nonempty : (row : ColumnInfo) → 0 < length (encode row)
unfolding encode write_string write_array write_uint
encode_nonempty row = omega arith
