-- ===== src/Model/DynamicCodec.antt =====
-- src/model/dynamic_codec.cpp: the encoding of a user table's rows, each value at an offset
-- aligned for its column's type. A failed assertion and a remainder by 0 have no result.
pub mod RoundTrip
use cpp_relational_db.Base.{
  ℕ, ◌+◌, ◌-◌, ◌%◌, ◌^◌, ◌<◌, ◌≡◌, ◌≤◌, ◌⊎◌, inl, inr, refl, sym, List, [], ◌∷◌, ◌++◌, Option, none,
  some, ◌>>=◌, length, arith, replicate, if◌then◌else◌, ◌==◌, append_assoc, length-append, subst,
  ap, Sits, Sits-append, Sits-end, length-replicate,
}
use cpp_relational_db.Util.Data.{
  write_uint, write_array, write_string, read_uint, read_array, read_string, le_bytes, string_bytes,
  write_uint_lem, write_string_lem, read_uint-Sits, read_array_lem, read_string-Sits,
  le_value-le_bytes4, length-le_bytes, length-string_bytes, Sits-front, Sits-back,
}
use cpp_relational_db.Catalog.Types.{
  ColumnInfo, Value, Schema, uint, string, uuid, page_id, int_type, text_type, int_alignment,
  text_alignment,
}

unfoldable pub get_alignment : ℕ → ℕ
get_alignment type_id =
    if type_id == int_type
    then int_alignment
    else if type_id == text_type
    then text_alignment
    else 0

unfoldable pub apply_padding : List ℕ → ℕ → Option (List ℕ)
apply_padding buffer type_id =
    let alignment = get_alignment type_id in
    let remainder = length buffer % alignment in
    let padding_needed = if remainder == 0 then 0 else alignment - remainder in
    if alignment == 0 then none else some (buffer ++ replicate padding_needed 0)

unfoldable pub skip_padding : ℕ → ℕ → Option ℕ
skip_padding offset type_id =
    let alignment = get_alignment type_id in
    let remainder = offset % alignment in
    if alignment == 0
    then none
    else if remainder == 0
    then some offset
    else some (offset + (alignment - remainder))

-- The visitor of `Encode`: `WriteData` at the alternative that the value holds.
unfoldable pub write_value : List ℕ → Value → List ℕ
write_value buffer (uint v) = write_uint 4 buffer v
write_value buffer (string v) = write_string buffer v
write_value buffer (uuid v) = write_array buffer v
write_value buffer (page_id v) = write_uint 4 buffer v

-- The loop of `Encode`, from the buffer written so far.
unfoldable pub encode_from : List ℕ → List Value → Schema → Option (List ℕ)
encode_from buffer (val ∷ vals) (col ∷ cols) = do
  padded ← apply_padding buffer col.type_id
  encode_from (write_value padded val) vals cols
encode_from buffer vals cols = some buffer

unfoldable pub encode : List Value → Schema → Option (List ℕ)
encode values schema = if length values == length schema then encode_from [] values schema else none

-- The value that `Decode` reads for a column, if the column's type is one that it reads.
unfoldable pub read_value : ℕ → List ℕ → ℕ → Option (List Value × ℕ)
read_value type_id bytes offset =
    if type_id == int_type
    then (do r ← read_uint 4 bytes offset; some (uint r.0 ∷ [], r.1))
    else if type_id == text_type
    then (do r ← read_string bytes offset; some (string r.0 ∷ [], r.1))
    else some ([], offset)

unfoldable pub decode_from : List ℕ → ℕ → Schema → Option (List Value)
decode_from bytes offset [] = some []
decode_from bytes offset (col ∷ cols) = do
  at ← skip_padding offset col.type_id
  val ← read_value col.type_id bytes at
  vals ← decode_from bytes val.1 cols
  some (val.0 ++ vals)

unfoldable pub decode : List ℕ → Schema → Option (List Value)
decode bytes schema = decode_from bytes 0 schema
