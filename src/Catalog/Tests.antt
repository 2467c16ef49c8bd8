-- ===== src/Catalog/Tests.antt =====
-- A row of the catalog table of types, encoded.
use cpp_relational_db.Base.{◌≡◌, [], ◌∷◌, refl}
use cpp_relational_db.Util.Data.{write_uint, write_string}
use cpp_relational_db.Catalog.Types.{TypeInfo, int_type, int_size}
use cpp_relational_db.Catalog.TypeInfoCodec

abbrev type_row : TypeInfo
type_row = record { type_id = int_type; size = int_size; type_name = 105 ∷ 110 ∷ 116 ∷ [] }

test_type_row :
    TypeInfoCodec.encode type_row ≡ 1 ∷ 0 ∷ 0 ∷ 0 ∷ 4 ∷ 0 ∷ 3 ∷ 0 ∷ 0 ∷ 0 ∷ 105 ∷ 110 ∷ 116 ∷ []
unfolding TypeInfoCodec.encode write_uint write_string
test_type_row = refl
