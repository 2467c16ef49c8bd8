-- ===== src/Planner/PhysicalPlanner.antt =====
-- include/planner/logical and src/planner/physical/physical_planner.cpp: the operators of a logical
-- plan. `CompilePredicate`, `BuildOutputSchema` and `ColumnsToPositions` are declared and have no
-- body: they are parameters. A logical plan
-- is a tree of its four nodes, so that the `default` of the `switch` is never reached.
use cpp_relational_db.Base.{
  ℕ, ◌^◌, ◌<◌, ◌≡◌, refl, List, Option, some, map, filter, take, length, arith, length-take_le,
  length-map_le, length-filter_le,
}
use cpp_relational_db.Catalog.Types.{Tuple, Schema, Value}
use cpp_relational_db.Storage.BufferManager.{BufferManager, Outcome, returned, thrown}
use cpp_relational_db.Storage.Bytes.{Page}
use cpp_relational_db.Storage.Disk.{IDiskManager, KeepsPages, invalid_page_id}
use cpp_relational_db.Access.HeapFile.Visit.{Ready}
use cpp_relational_db.Access.HeapFile.Chain.{Entry, head_id, Chain}
use cpp_relational_db.Access.HeapIterator.{HeapIterator}
use cpp_relational_db.Access.HeapIterator.Live.{live_records}
use cpp_relational_db.Access.HeapIterator.Cached.{InPool}
use cpp_relational_db.Catalog.Operations.{and_go}
use cpp_relational_db.Model.TableManager.{TableManager, UserTable, open_table}
use cpp_relational_db.Model.UserTable.{relation_of, Encoded, tuples_of, scan-user_table}
use cpp_relational_db.Executor.Operator.{Operator, Predicate, evaluate, Produces}
use cpp_relational_db.Executor.SeqScanOp.{ScanState, seq_scan_op}
use cpp_relational_db.Executor.FilterOp.{filter_op, filter_op-Produces}
use cpp_relational_db.Executor.LimitOp.{Limited, limit_op, limit_op-Produces}
use cpp_relational_db.Executor.ProjectionOp.{project, projection_op, projection_op-Produces}

-- `parser::Expr` is the parameter `E`.
pub data LogicalPlan (E : Type 0) : Type 0 where
  scan : List ℕ → LogicalPlan E
  filter_by : LogicalPlan E → E → LogicalPlan E
  project_on : LogicalPlan E → List (List ℕ) → LogicalPlan E
  limit_to : LogicalPlan E → ℕ → LogicalPlan E

pub record PlanningContext (D : Type 0) : Type 0 where
  pub table_mgr : TableManager D

-- The functions without a body.
pub record PlanFunctions (E : Type 0) : Type 0 where
  pub compile_predicate : E → Predicate
  pub build_output_schema : LogicalPlan E → List (List ℕ) → Schema
  pub columns_to_positions : LogicalPlan E → List (List ℕ) → List ℕ

-- The state of the operators of a plan, and theirs when they are made, over a pool: the iterator of
-- a scan that was not opened is any.
abbrev pub StateOf : {E : Type 0} → Type 0 → LogicalPlan E → Type 0
StateOf D (scan name) = ScanState D
StateOf D (filter_by child pred) = StateOf D child
StateOf D (project_on child cols) = StateOf D child
StateOf D (limit_to child limit) = Limited (StateOf D child)

abbrev pub made :
    {E D : Type 0} → HeapIterator → BufferManager D → (plan : LogicalPlan E) → StateOf D plan
made it b (scan name) = some (it, b)
made it b (filter_by child pred) = made it b child
made it b (project_on child cols) = made it b child
made it b (limit_to child limit) = record { child = made it b child; produced = 0 }

-- The table that a plan scans.
abbrev pub table_of : {E : Type 0} → LogicalPlan E → List ℕ
table_of (scan name) = name
table_of (filter_by child pred) = table_of child
table_of (project_on child cols) = table_of child
table_of (limit_to child limit) = table_of child

-- Every limit is a 64-bit size.
abbrev pub HasSizes : {E : Type 0} → LogicalPlan E → Type 0
HasSizes (scan name) = Unit {0}
HasSizes (filter_by child pred) = HasSizes child
HasSizes (project_on child cols) = HasSizes child
HasSizes (limit_to child limit) = (limit < 2 ^ 64) × HasSizes child

-- `OpenTable` with the context's table manager.
abbrev on_tables : {D A : Type 0} → Outcome (TableManager D) A → Outcome (PlanningContext D) A
on_tables (returned a tm) = returned a (record { table_mgr = tm })
on_tables (thrown e tm) = thrown e (record { table_mgr = tm })

module _ {D E : Type 0} (dm : IDiskManager D) (turns n : ℕ) (heaps : ℕ × ℕ) (heap : ℕ)
    (fns : PlanFunctions E) where
  -- `heaps` are the addresses of the catalog's heap files, and `heap` that of the table's.
  unfoldable pub build :
      (plan : LogicalPlan E)
      → PlanningContext D
      → Outcome (PlanningContext D) (Option (Operator (StateOf D plan)))
  build (scan name) ctx =
      and_go (on_tables (open_table dm turns n heaps ctx.table_mgr name))
        (λ table ctx'. returned (some (seq_scan_op dm turns (relation_of heap table))) ctx')
  build (filter_by child pred) ctx =
      let compiled = fns.compile_predicate pred in
      and_go (build child ctx) (λ child_op ctx'. returned (some (filter_op child_op compiled)) ctx')
  build (project_on child cols) ctx = and_go (build child ctx) (λ child_op ctx'.
      let out_schema = fns.build_output_schema child cols in
      returned (some (projection_op child_op (fns.columns_to_positions child cols) out_schema))
        ctx')
  build (limit_to child limit) ctx =
      and_go (build child ctx) (λ child_op ctx'. returned (some (limit_op child_op limit)) ctx')

  -- The tuples that a plan stands for, on those of its table.
  abbrev pub rows_of : List Tuple → LogicalPlan E → List Tuple
  rows_of ts (scan name) = ts
  rows_of ts (filter_by child pred) =
      filter (evaluate (fns.compile_predicate pred)) (rows_of ts child)
  rows_of ts (project_on child cols) =
      map (project (fns.columns_to_positions child cols) (fns.build_output_schema child cols))
        (rows_of ts child)
  rows_of ts (limit_to child limit) = take limit (rows_of ts child)

  few_rows :
      (fuel : ℕ) (ts : List Tuple) (plan : LogicalPlan E)
      → length ts < fuel
      → length (rows_of ts plan) < fuel
  few_rows fuel ts (scan name) h = h
  few_rows fuel ts (filter_by child pred) h = omega (
    arith,
    few_rows fuel ts child h,
    length-filter_le (evaluate (fns.compile_predicate pred)) (rows_of ts child),
  )
  few_rows fuel ts (project_on child cols) h = omega (
    arith,
    few_rows fuel ts child h,
    length-map_le
        (project (fns.columns_to_positions child cols) (fns.build_output_schema child cols))
        (rows_of ts child),
  )
  few_rows fuel ts (limit_to child limit) h =
      omega (arith, few_rows fuel ts child h, length-take_le limit (rows_of ts child))

  module _ {Stores : D → ℕ → Page → Type 0} (k : KeepsPages dm Stores) (fuel : ℕ)
      (ctx : PlanningContext D) (tm : TableManager D) (table : UserTable) (es : List Entry)
      (it : HeapIterator) (rows : List (List Value)) (ready : Ready tm.catalog.bm)
      (chain : Chain k tm.catalog.bm es invalid_page_id) (in_pool : InPool tm.catalog.bm es)
      (l : length es < turns) (first : table.hf.first_page_id ≡ head_id es invalid_page_id)
      (encoded : Encoded table.schema (live_records es) rows) (few : length rows < fuel) where
    abbrev tuples : List Tuple
    tuples = tuples_of table.schema rows

    few_tuples : length tuples < fuel
    few_tuples =
        let tuple : List Value → Tuple = λ row. record { values = row; schema = table.schema } in
        omega (arith, few, length-map_le tuple rows)

    -- Where `OpenTable` of the plan's table returns a table, and leaves a valid pool over a disk
    -- that keeps pages, with an unpinned frame and room for a pin on every frame, in which the
    -- pages of the table's heap file all are and its records that are not deleted encode `rows`,
    -- fewer than `fuel`; and where the limits are 64-bit sizes: `Build` returns operators that
    -- produce, with `fuel` for the bound on the turns of their loops and more turns for the loop
    -- of `Advance` than pages, the tuples that the plan stands for on those rows.
    pub build-Produces :
        (plan : LogicalPlan E)
        → open_table dm turns n heaps ctx.table_mgr (table_of plan) ≡ returned (some table) tm
        → HasSizes plan
        → (op : Operator (StateOf D plan)) × (build plan ctx
            ≡ returned (some op) (record { table_mgr = tm }))
          × Produces op fuel (made it tm.catalog.bm plan) (rows_of tuples plan)
    unfolding build
    build-Produces (scan name) e h = (
      seq_scan_op dm turns (relation_of heap table),
      rw e refl,
      scan-user_table dm k turns heap fuel table tm.catalog.bm es it rows ready chain in_pool l
          first encoded,
    )
    build-Produces (filter_by child pred) e h =
        let (op, eq, p) = build-Produces child e h in
        let compiled = fns.compile_predicate pred in
        (
          filter_op op compiled,
          rw eq refl,
          filter_op-Produces op compiled fuel (made it tm.catalog.bm child) (rows_of tuples child)
              (few_rows fuel tuples child few_tuples) p,
        )
    build-Produces (project_on child cols) e h =
        let (op, eq, p) = build-Produces child e h in
        let positions = fns.columns_to_positions child cols in
        let out_schema = fns.build_output_schema child cols in
        (
          projection_op op positions out_schema,
          rw eq refl,
          projection_op-Produces op positions out_schema fuel (made it tm.catalog.bm child)
              (rows_of tuples child) p,
        )
    build-Produces (limit_to child limit) e h =
        let (op, eq, p) = build-Produces child e h.1 in
        (
          limit_op op limit,
          rw eq refl,
          limit_op-Produces op limit fuel h.0 (made it tm.catalog.bm (limit_to child limit))
              (rows_of tuples child) p,
        )
