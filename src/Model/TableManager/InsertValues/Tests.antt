-- ===== src/Model/TableManager/InsertValues/Tests.antt =====
-- A row of a TEXT and an INT that is inserted into an empty table.
use cpp_relational_db.Base.{ℕ, ◌≡◌, refl, List, [], ◌∷◌, some, arith}
use cpp_relational_db.Storage.Disk.{invalid_page_id}
use cpp_relational_db.Storage.BufferManager.{BufferManager, returned}
use cpp_relational_db.Storage.DiskManager.{DiskManager, disk_manager}
use cpp_relational_db.Util.Data.{write_uint, write_string}
use cpp_relational_db.Access.HeapFile.{Rid, Record, shown, open_heap_file, get}
use cpp_relational_db.Access.HeapFile.Chain.{Chain}
use cpp_relational_db.Access.HeapFile.Shape.{blank, IsPageOf-init_heap_page}
use cpp_relational_db.Access.HeapFile.History.{Reach, start}
use cpp_relational_db.Access.TwoPages.{
  keeps, ids, pool_of, pool-Ready, pool-IsSound, first-Chain, empty_page,
}
use cpp_relational_db.Catalog.Types.{Value, uint, string, uuid_of, int_type, text_type}
use cpp_relational_db.Model.DynamicCodec.{
  encode, encode_from, apply_padding, get_alignment, write_value,
}
use cpp_relational_db.Model.UserTable.{decode_tuple}
use cpp_relational_db.Model.TableManager.{UserTable, insert_values}
use cpp_relational_db.Model.TableManager.InsertValues.{insert_values-get}

abbrev pool : BufferManager DiskManager
pool = pool_of empty_page empty_page 2

abbrev table : UserTable
table = record {
  hf = open_heap_file [] 0;
  schema =
      record { table_id = uuid_of 9; col_name = 97 ∷ []; type_id = text_type; ordinal_position = 1 }
      ∷ record {
        table_id = uuid_of 9;
        col_name = 98 ∷ [];
        type_id = int_type;
        ordinal_position = 2;
      }
      ∷ [];
  table_id = uuid_of 9;
}

one_page : Chain keeps pool (blank 0 ∷ []) invalid_page_id
one_page =
    first-Chain empty_page empty_page 2 (blank 0) refl (IsPageOf-init_heap_page 0 (λ _. 0))
      (omega arith)

abbrev row : List Value
row = string (120 ∷ []) ∷ uint 258 ∷ []

abbrev row_bytes : List ℕ
row_bytes = 1 ∷ 0 ∷ 0 ∷ 0 ∷ 120 ∷ 0 ∷ 0 ∷ 0 ∷ 2 ∷ 1 ∷ 0 ∷ 0 ∷ []

test_row : encode row table.schema ≡ some row_bytes
unfolding encode encode_from apply_padding get_alignment write_value write_uint write_string
test_row = refl

insert_values-get_example :
    (rid : Rid) × (b₁ : BufferManager DiskManager) × (b₂ : BufferManager DiskManager) × (r : Record)
    × (insert_values disk_manager 4 table pool row ≡ returned (some (some rid)) (table, b₁))
    × Reach disk_manager 4 table.hf pool 1 b₁ ((rid, row_bytes) ∷ [])
    × (get disk_manager b₁ rid ≡ returned (some r) b₂)
    × (decode_tuple table.schema (shown b₂ r)
        ≡ some (record { values = row; schema = table.schema }))
insert_values-get_example =
    insert_values-get disk_manager keeps 4 table pool
      (pool-IsSound empty_page empty_page 2 (omega arith)) (pool-Ready empty_page empty_page 2) 0
      refl (omega arith) one_page 0 pool [] row row_bytes start
      (rw (ids empty_page empty_page 2) (omega arith)) (omega arith)
      ((refl, omega arith), ((refl, omega arith), tt)) test_row (omega arith) (omega arith)
