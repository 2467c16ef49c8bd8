-- ===== src/Executor/Tests.antt =====
-- Operators over one that gives three tuples, and a query over a relation with two records.
use cpp_relational_db.Base.{
  false, zero, suc, Option, none, ℕ, ◌≡◌, ◌==◌, not, [], ◌∷◌, refl, arith, some, List, Bool, true,
  map, filter, take,
}
use cpp_relational_db.Catalog.Types.{Value, uint, Tuple}
use cpp_relational_db.Executor.Operator.{Operator, Predicate, evaluate, Produces}
use cpp_relational_db.Storage.DiskManager.{DiskManager, disk_manager}
use cpp_relational_db.Access.HeapFile.{open_heap_file}
use cpp_relational_db.Access.HeapIterator.{HeapIterator}
use cpp_relational_db.Access.TwoPages.{keeps}
use cpp_relational_db.Access.LoadedPage.{entry, loaded, loaded-Ready, loaded-InPool, loaded-Chain}
use cpp_relational_db.Executor.SeqScanOp.{Relation, ScanState}
use cpp_relational_db.Executor.FilterOp.{filter_op, filter_op-Produces}
use cpp_relational_db.Executor.LimitOp.{Limited}
use cpp_relational_db.Executor.ProjectionOp.{project}
use cpp_relational_db.Executor.Run.{
  execute_and_collect, execute, query, execute-Produces, execute-query,
}

abbrev tuple : ℕ → Tuple
tuple v = record { values = uint v ∷ []; schema = [] }

abbrev tuples : List Tuple
tuples = tuple 3 ∷ tuple 2 ∷ tuple 1 ∷ []

-- An operator that counts the tuples that are left.
abbrev next_left : ℕ → Option (Option Tuple × ℕ)
next_left zero = some (none, zero)
next_left (suc n) = some (some (tuple (suc n)), n)

abbrev countdown : Operator ℕ
countdown = record { open_op = λ n. 3; next = λ fuel n. next_left n; close_op = λ n. n }

countdown-Produces : Produces countdown 9 0 tuples
countdown-Produces = (2, refl, (1, refl, (0, refl, (0, refl))))

-- The tuples other than that of 2.
abbrev is_not_two : List Value → Bool
is_not_two (uint v ∷ vals) = not (v == 2)
is_not_two vals = true

abbrev not_two : Predicate
not_two = record { func = λ tup. is_not_two tup.values }

filter_example : Produces (filter_op countdown not_two) 9 0 (filter (evaluate not_two) tuples)
filter_example = filter_op-Produces countdown not_two 9 0 tuples (omega arith) countdown-Produces

run_example :
    (s' : ℕ) × (execute_and_collect countdown 9 0 ≡ some (tuples, s'))
    × (execute countdown 9 0 ≡ some s')
run_example = execute-Produces countdown 9 0 tuples (omega arith) countdown-Produces

-- A relation of records of one byte.
abbrev relation : Relation
relation = record {
  heap = 0;
  hf = open_heap_file [] 0;
  decode = λ r. some (record { values = map uint r; schema = [] });
}

abbrev not_opened : HeapIterator
not_opened = record { heap = 0; page = 0; slot = 0; has_next = false }

query_example :
    (s' : Limited (ScanState DiskManager)) × (execute_and_collect
        (query disk_manager 3 relation not_two (1 ∷ []) [] 1)
        9
        (record { child = some (not_opened, loaded (2 ∷ []) (5 ∷ [])); produced = 1 })
      ≡ some (
        take 1 (map (project (1 ∷ []) []) (filter (evaluate not_two) (tuple 2 ∷ tuple 5 ∷ []))),
        s',
      ))
query_example =
    execute-query disk_manager keeps 3 relation not_two (1 ∷ []) [] 1 9 1 (loaded (2 ∷ []) (5 ∷ []))
      (entry (2 ∷ []) (5 ∷ []) ∷ []) not_opened (tuple 2 ∷ tuple 5 ∷ []) (omega arith) (omega arith)
      (loaded-Ready (2 ∷ []) (5 ∷ [])) (loaded-Chain (2 ∷ []) (5 ∷ []) (omega arith) (omega arith))
      (loaded-InPool (2 ∷ []) (5 ∷ [])) (omega arith) refl (refl, (refl, tt))
