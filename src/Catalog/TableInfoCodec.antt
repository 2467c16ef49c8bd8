-- ===== src/Catalog/TableInfoCodec.antt =====
-- src/catalog/catalog_codec.cpp, TableInfoCodec.
use cpp_relational_db.Base.{
  ℕ, ◌^◌, ◌<◌, ◌≡◌, List, [], ◌∷◌, ◌++◌, Option, some, ◌>>=◌, length, arith,
}
use cpp_relational_db.Util.Data.{
  write_uint, write_array, write_string, read_uint, read_array, read_string, le_bytes, string_bytes,
  write_uint_lem, write_string_lem, read_uint-Sits, read_array_lem, read_string-Sits,
  le_value-le_bytes4, Sits-four, length-le_bytes,
}
use cpp_relational_db.Catalog.Types.{
  TableInfo, Value, Schema, string, uuid, page_id, tables_catalog_schema,
}

unfoldable pub encode : TableInfo → List ℕ
encode row =
    let buf = write_uint 4 [] row.first_page_id in
    let buf = write_array buf row.heap_file_id in
    let buf = write_array buf row.table_id in write_string buf row.table_name

unfoldable pub decode : List ℕ → Option TableInfo
decode bytes = do
  first_page_id ← read_uint 4 bytes 0
  heap_file_id ← read_array 16 bytes first_page_id.1
  table_id ← read_array 16 bytes heap_file_id.1
  table_name ← read_string bytes table_id.1
  some (record {
    table_id = table_id.0;
    table_name = table_name.0;
    heap_file_id = heap_file_id.0;
    first_page_id = first_page_id.0;
  })

unfoldable pub to_values : TableInfo → List Value
to_values row =
    uuid row.table_id
    ∷ string row.table_name
    ∷ uuid row.heap_file_id
    ∷ page_id row.first_page_id
    ∷ []

abbrev pub get_schema : Schema
get_schema = tables_catalog_schema

-- The rows that the types of the source admit, with a name whose length a 32-bit count holds.
pub record Fits (row : TableInfo) : Type 0 where
  pub table_id : length row.table_id ≡ 16
  pub table_name : length row.table_name < 2 ^ 32
  pub heap_file_id : length row.heap_file_id ≡ 16
  pub first_page_id : row.first_page_id < 2 ^ 32

encode_eq :
    (row : TableInfo)
    → encode row
      ≡ ((le_bytes 4 row.first_page_id ++ row.heap_file_id) ++ row.table_id)
        ++ string_bytes row.table_name
unfolding encode write_array
encode_eq row = rw (
  write_string_lem
      (write_array (write_array (write_uint 4 [] row.first_page_id) row.heap_file_id) row.table_id)
      row.table_name,
  write_uint_lem 4 [] row.first_page_id,
)

-- A table's row that is encoded and decoded is the row, whenever its UUIDs have 16 bytes, its page
-- id is a 32-bit pattern and its name's length fits 32 bits.
pub decode-encode_table_info : (row : TableInfo) → Fits row → decode (encode row) ≡ some row
unfolding decode
decode-encode_table_info row f =
    let buf = encode row in
    let s =
      Sits-four (le_bytes 4 row.first_page_id) row.heap_file_id row.table_id
        (string_bytes row.table_name) 4 20 36 (length-le_bytes 4 row.first_page_id)
        (omega (arith, f.heap_file_id)) (omega (arith, f.table_id)) in
    rw (
      encode_eq row,
      read_uint-Sits 4 _ 0 row.first_page_id s.0,
      le_value-le_bytes4 row.first_page_id f.first_page_id,
      read_array_lem 16 _ 4 row.heap_file_id f.heap_file_id s.1,
      read_array_lem 16 _ 20 row.table_id f.table_id s.2,
      read_string-Sits _ 36 row.table_name f.table_name s.3,
    )

pub encode_nonempty : (row : TableInfo) → 0 < length (encode row)
unfolding encode write_string write_array write_uint
encode_nonempty row = omega arith
