-- ===== src/Model/Tests.antt =====
-- A table with a TEXT and an INT column, and a scan over two of its rows.
use cpp_relational_db.Base.{ℕ, ◌≡◌, [], ◌∷◌, refl, arith, some, List, false, ◌>>=◌}
use cpp_relational_db.Util.Data.{write_uint, write_string}
use cpp_relational_db.Catalog.Types.{Schema, Value, uint, string, uuid_of, int_type, text_type}
use cpp_relational_db.Model.DynamicCodec.{
  encode, decode, encode_from, apply_padding, get_alignment, write_value,
}
use cpp_relational_db.Model.DynamicCodec.RoundTrip.{decode-encode_row}
use cpp_relational_db.Storage.DiskManager.{disk_manager}
use cpp_relational_db.Access.HeapFile.{open_heap_file}
use cpp_relational_db.Access.HeapIterator.{HeapIterator}
use cpp_relational_db.Access.TwoPages.{keeps}
use cpp_relational_db.Access.LoadedPage.{entry, loaded, loaded-Ready, loaded-InPool, loaded-Chain}
use cpp_relational_db.Model.TableManager.{UserTable}
use cpp_relational_db.Model.UserTable.{relation_of, tuples_of, scan-user_table}
use cpp_relational_db.Executor.Operator.{Produces}
use cpp_relational_db.Executor.SeqScanOp.{seq_scan_op}

abbrev two_columns : Schema
two_columns =
    record { table_id = uuid_of 9; col_name = 97 ∷ []; type_id = text_type; ordinal_position = 1 }
    ∷ record { table_id = uuid_of 9; col_name = 98 ∷ []; type_id = int_type; ordinal_position = 2 }
    ∷ []

abbrev row : List Value
row = string (120 ∷ []) ∷ uint 258 ∷ []

abbrev row_bytes : List ℕ
row_bytes = 1 ∷ 0 ∷ 0 ∷ 0 ∷ 120 ∷ 0 ∷ 0 ∷ 0 ∷ 2 ∷ 1 ∷ 0 ∷ 0 ∷ []

test_row : encode row two_columns ≡ some row_bytes
unfolding encode encode_from apply_padding get_alignment write_value write_uint write_string
test_row = refl

row_example : (encode row two_columns >>= λ bytes. decode bytes two_columns) ≡ some row
row_example = decode-encode_row two_columns row ((refl, omega arith), ((refl, omega arith), tt))

abbrev other_row : List Value
other_row = string (121 ∷ []) ∷ uint 7 ∷ []

abbrev other_bytes : List ℕ
other_bytes = 1 ∷ 0 ∷ 0 ∷ 0 ∷ 121 ∷ 0 ∷ 0 ∷ 0 ∷ 7 ∷ 0 ∷ 0 ∷ 0 ∷ []

test_other_row : encode other_row two_columns ≡ some other_bytes
unfolding encode encode_from apply_padding get_alignment write_value write_uint write_string
test_other_row = refl

abbrev table : UserTable
table = record { hf = open_heap_file [] 0; schema = two_columns; table_id = uuid_of 9 }

abbrev not_opened : HeapIterator
not_opened = record { heap = 0; page = 0; slot = 0; has_next = false }

scan_example :
    Produces
      (seq_scan_op disk_manager 3 (relation_of 0 table))
      5
      (some (not_opened, loaded row_bytes other_bytes))
      (tuples_of two_columns (row ∷ other_row ∷ []))
scan_example =
    scan-user_table disk_manager keeps 3 0 5 table (loaded row_bytes other_bytes)
      (entry row_bytes other_bytes ∷ []) not_opened (row ∷ other_row ∷ [])
      (loaded-Ready row_bytes other_bytes)
      (loaded-Chain row_bytes other_bytes (omega arith) (omega arith))
      (loaded-InPool row_bytes other_bytes) (omega arith) refl
      (
        test_row,
        ((refl, omega arith), ((refl, omega arith), tt)),
        (test_other_row, ((refl, omega arith), ((refl, omega arith), tt)), tt),
      )
