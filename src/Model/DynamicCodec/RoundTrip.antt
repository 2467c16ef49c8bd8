-- ===== src/Model/DynamicCodec/RoundTrip.antt =====
-- That a row of a user table survives its encoding.
use cpp_relational_db.Base.{
  suc, append-nil, ==_self, ◌∙◌, ℕ, ◌+◌, ◌-◌, ◌%◌, ◌^◌, ◌<◌, ◌≡◌, refl, sym, List, [], ◌∷◌, ◌++◌,
  some, ◌>>=◌, length, arith, replicate, if◌then◌else◌, ◌==◌, append_assoc, length-append, subst,
  ap, Sits, length-replicate,
}
use cpp_relational_db.Util.Data.{
  write_array, le_bytes, string_bytes, write_uint_lem, write_string_lem, read_uint-Sits,
  read_string-Sits, le_value-le_bytes4, length-le_bytes, length-string_bytes, Sits-front, Sits-back,
}
use cpp_relational_db.Catalog.Types.{
  Value, Schema, uint, string, uuid, page_id, int_type, text_type,
}
use cpp_relational_db.Model.DynamicCodec.{
  get_alignment, apply_padding, skip_padding, write_value, encode_from, encode, read_value,
  decode_from, decode,
}

-- The value is one that a column of type `type_id` holds.
abbrev pub HasType : ℕ → Value → Type 0
HasType type_id (uint v) = (type_id ≡ int_type) × (v < 2 ^ 32)
HasType type_id (string v) = (type_id ≡ text_type) × (length v < 2 ^ 32)
HasType type_id (uuid v) = ⊥
HasType type_id (page_id v) = ⊥

-- A value for each column, of its type.
abbrev pub IsRow : Schema → List Value → Type 0
IsRow [] [] = Unit {0}
IsRow [] (val ∷ vals) = ⊥
IsRow (col ∷ cols) [] = ⊥
IsRow (col ∷ cols) (val ∷ vals) = HasType col.type_id val × IsRow cols vals

abbrev value_bytes : Value → List ℕ
value_bytes (uint v) = le_bytes 4 v
value_bytes (string v) = string_bytes v
value_bytes (uuid v) = v
value_bytes (page_id v) = le_bytes 4 v

write_value_lem : (buffer : List ℕ) (v : Value) → write_value buffer v ≡ buffer ++ value_bytes v
unfolding write_value write_array
write_value_lem buffer (uint v) = write_uint_lem 4 buffer v
write_value_lem buffer (string v) = write_string_lem buffer v
write_value_lem buffer (uuid v) = refl
write_value_lem buffer (page_id v) = write_uint_lem 4 buffer v

read_value-Sits :
    (type_id : ℕ) (v : Value) (bytes : List ℕ) (at : ℕ)
    → HasType type_id v
    → Sits bytes at (value_bytes v)
    → read_value type_id bytes at ≡ some (v ∷ [], at + length (value_bytes v))
unfolding read_value
read_value-Sits type_id (uint v) bytes at h s =
    rw (h.0, read_uint-Sits 4 bytes at v s, le_value-le_bytes4 v h.1, length-le_bytes 4 v)
read_value-Sits type_id (string v) bytes at h s =
    rw (h.0, read_string-Sits bytes at v h.1 s, length-string_bytes v)
read_value-Sits type_id (uuid v) bytes at h s = elim h [ ]
read_value-Sits type_id (page_id v) bytes at h s = elim h [ ]

HasType-alignment : (type_id : ℕ) (v : Value) → HasType type_id v → get_alignment type_id ≡ 4
unfolding get_alignment
HasType-alignment type_id (uint v) h = rw (h.0)
HasType-alignment type_id (string v) h = rw (h.0)
HasType-alignment type_id (uuid v) h = elim h [ ]
HasType-alignment type_id (page_id v) h = elim h [ ]

-- Writer and reader agree on the padding.
padding_lem :
    (type_id : ℕ) (buffer : List ℕ)
    → get_alignment type_id ≡ 4
    → (k : ℕ) × (apply_padding buffer type_id ≡ some (buffer ++ replicate k 0))
      × (skip_padding (length buffer) type_id ≡ some (length buffer + k))
unfolding apply_padding skip_padding
padding_lem type_id buffer h =
    let k = if length buffer % 4 == 0 then 0 else 4 - length buffer % 4 in
    (k, rw (h), rw (h) (ground arith))

encode_from_lem :
    (cols : Schema) (vals : List Value)
    → IsRow cols vals
    → (buffer : List ℕ)
    → (tail : List ℕ) × (encode_from buffer vals cols ≡ some (buffer ++ tail))
      × ((bytes : List ℕ)
          → Sits bytes (length buffer) tail
          → decode_from bytes (length buffer) cols ≡ some vals)
unfolding encode_from decode_from
encode_from_lem [] [] h buffer = ([], ap some (sym (append-nil buffer)), λ bytes s. refl)
encode_from_lem [] (val ∷ vals) h buffer = elim h [ ]
encode_from_lem (col ∷ cols) [] h buffer = elim h [ ]
encode_from_lem (col ∷ cols) (val ∷ vals) h buffer =
    let p = padding_lem col.type_id buffer (HasType-alignment col.type_id val h.0) in
    let pad = replicate p.0 0 in
    let vb = value_bytes val in
    let next = (buffer ++ pad) ++ vb in
    let rest = encode_from_lem cols vals h.1 next in
    let tail = pad ++ (vb ++ rest.0) in
    let n = length buffer in
    let at_val : n + length pad ≡ n + p.0 = omega (arith, length-replicate {A = ℕ} p.0 0) in
    let at_rest : n + p.0 + length vb ≡ length next =
      omega (arith, length-append (buffer ++ pad) vb, length-append buffer pad, at_val) in
    let same : next ++ rest.0 ≡ buffer ++ tail =
      append_assoc (buffer ++ pad) vb rest.0 ∙ append_assoc buffer pad (vb ++ rest.0) in
    (
      tail,
      rw (p.1, write_value_lem (buffer ++ pad) val, rest.1, same),
      λ bytes s.
          let s' : Sits bytes (n + p.0) (vb ++ rest.0) =
            subst (λ i. Sits bytes i (vb ++ rest.0)) at_val
              (Sits-back bytes n pad (vb ++ rest.0) s) in
          let s'' : Sits bytes (length next) rest.0 =
            subst (λ i. Sits bytes i rest.0) at_rest (Sits-back bytes (n + p.0) vb rest.0 s') in
          rw (
            p.2,
            read_value-Sits col.type_id val bytes (n + p.0) h.0
                (Sits-front bytes (n + p.0) vb rest.0 s'),
            at_rest,
            rest.2 bytes s'',
          ),
    )

IsRow-length : (cols : Schema) (vals : List Value) → IsRow cols vals → length vals ≡ length cols
IsRow-length [] [] h = refl
IsRow-length [] (val ∷ vals) h = elim h [ ]
IsRow-length (col ∷ cols) [] h = elim h [ ]
IsRow-length (col ∷ cols) (val ∷ vals) h = ap suc (IsRow-length cols vals h.1)

-- A row that has, for each column of the schema, a 32-bit integer where the column's type is INT
-- and a text shorter than 2 ^ 32 where it is TEXT, is encoded, and its encoding is decoded under
-- the same schema as the row.
pub decode-encode_row :
    (schema : Schema) (values : List Value)
    → IsRow schema values
    → (encode values schema >>= λ bytes. decode bytes schema) ≡ some values
unfolding encode decode
decode-encode_row schema values h =
    let r = encode_from_lem schema values h [] in
    rw (
      IsRow-length schema values h,
      ==_self (length schema),
      r.1,
      r.2 r.0 ([], [], sym (append-nil r.0), refl),
    )
