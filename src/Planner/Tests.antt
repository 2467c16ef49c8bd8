-- ===== src/Planner/Tests.antt =====
-- A plan over a table of two rows that was opened before.
use cpp_relational_db.Base.{false, ℕ, ◌≡◌, refl, Bool, List, [], ◌∷◌, some, none, true, arith}
use cpp_relational_db.Util.Data.{write_uint, write_string}
use cpp_relational_db.Catalog.Types.{Tuple, Value, Schema, string, uuid_of, text_type}
use cpp_relational_db.Storage.BufferManager.{returned}
use cpp_relational_db.Storage.DiskManager.{DiskManager, disk_manager}
use cpp_relational_db.Access.HeapFile.{open_heap_file}
use cpp_relational_db.Access.HeapIterator.{HeapIterator}
use cpp_relational_db.Access.TwoPages.{keeps}
use cpp_relational_db.Access.LoadedPage.{entry, loaded, loaded-Ready, loaded-InPool, loaded-Chain}
use cpp_relational_db.Model.DynamicCodec.{
  encode, encode_from, apply_padding, get_alignment, write_value,
}
use cpp_relational_db.Model.TableManager.{UserTable, TableManager, open_table, open_cached}
use cpp_relational_db.Model.UserTable.{Encoded, tuples_of}
use cpp_relational_db.Executor.Operator.{Operator, Produces}
use cpp_relational_db.Planner.PhysicalPlanner.{
  LogicalPlan, scan, filter_by, project_on, limit_to, PlanFunctions, StateOf, made, build, rows_of,
  build-Produces,
}

abbrev schema : Schema
schema =
    record { table_id = uuid_of 9; col_name = 97 ∷ []; type_id = text_type; ordinal_position = 1 }
    ∷ []

abbrev rows : List (List Value)
rows = (string (120 ∷ []) ∷ []) ∷ (string (121 ∷ []) ∷ []) ∷ []

abbrev r : List ℕ
r = 1 ∷ 0 ∷ 0 ∷ 0 ∷ 120 ∷ []

abbrev s : List ℕ
s = 1 ∷ 0 ∷ 0 ∷ 0 ∷ 121 ∷ []

rows-Encoded : Encoded schema (r ∷ s ∷ []) rows
unfolding encode encode_from apply_padding get_alignment write_value write_uint write_string
rows-Encoded = (refl, ((refl, omega arith), tt), (refl, ((refl, omega arith), tt), tt))

abbrev table : UserTable
table = record { hf = open_heap_file [] 0; schema = schema; table_id = uuid_of 9 }

abbrev name : List ℕ
name = 117 ∷ 49 ∷ []

abbrev manager : TableManager DiskManager
manager = record {
  cache = (name, table) ∷ [];
  catalog = record { bm = loaded r s; tables = none; attributes = none; types = none };
}

-- An expression is a predicate; a column is kept whatever it is called.
abbrev functions : PlanFunctions (Tuple → Bool)
functions = record {
  compile_predicate = λ e. record { func = e };
  build_output_schema = λ child cols. [];
  columns_to_positions = λ child cols. 1 ∷ [];
}

abbrev plan : LogicalPlan (Tuple → Bool)
plan = limit_to (project_on (filter_by (scan name) (λ t. true)) []) 1

abbrev not_opened : HeapIterator
not_opened = record { heap = 0; page = 0; slot = 0; has_next = false }

table_there : open_table disk_manager 3 3 (0, 1) manager name ≡ returned (some table) manager
unfolding open_table open_cached
table_there = refl

build-Produces_example :
    (op : Operator (StateOf DiskManager plan)) × (build disk_manager 3 3
        (0, 1)
        7
        functions
        plan
        (record { table_mgr = manager })
      ≡ returned (some op) (record { table_mgr = manager }))
    × Produces op 9
        (made not_opened (loaded r s) plan)
        (rows_of disk_manager 3 3 (0, 1) 7 functions (tuples_of schema rows) plan)
build-Produces_example =
    build-Produces disk_manager 3 3 (0, 1) 7 functions keeps 9 (record { table_mgr = manager })
      manager table (entry r s ∷ []) not_opened rows (loaded-Ready r s)
      (loaded-Chain r s (omega arith) (omega arith)) (loaded-InPool r s) (omega arith) refl
      rows-Encoded (omega arith) plan table_there (omega arith, tt)
