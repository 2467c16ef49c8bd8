-- ===== src/Executor/Run.antt =====
-- src/executor/executor.cpp
use cpp_relational_db.Base.{
  ℕ, zero, suc, ◌^◌, ◌<◌, ◌≡◌, ◌++◌, List, [], ◌∷◌, Option, none, some, length, take, filter, map,
  ◌>>=◌, arith, append_assoc, append-nil, length-take_le, length-map_le, length-filter_le,
}
use cpp_relational_db.Catalog.Types.{Tuple, Schema}
use cpp_relational_db.Executor.Operator.{Operator, Predicate, evaluate, Streams, Produces}
use cpp_relational_db.Storage.Bytes.{Page}
use cpp_relational_db.Storage.Disk.{IDiskManager, KeepsPages, invalid_page_id}
use cpp_relational_db.Storage.BufferManager.{BufferManager}
use cpp_relational_db.Access.HeapFile.Visit.{Ready}
use cpp_relational_db.Access.HeapFile.Chain.{Entry, head_id, Chain}
use cpp_relational_db.Access.HeapIterator.{HeapIterator}
use cpp_relational_db.Access.HeapIterator.Live.{live_records}
use cpp_relational_db.Access.HeapIterator.Cached.{InPool}
use cpp_relational_db.Executor.SeqScanOp.{
  Relation, ScanState, seq_scan_op, Decodes, seq_scan_op-Produces,
}
use cpp_relational_db.Executor.FilterOp.{filter_op, filter_op-Produces}
use cpp_relational_db.Executor.LimitOp.{Limited, limit_op, limit_op-Produces}
use cpp_relational_db.Executor.ProjectionOp.{project, projection_op, projection_op-Produces}

unfoldable pub push_or_stop :
    {S : Type 0}
    → List Tuple
    → (List Tuple → S → Option (List Tuple × S))
    → Option Tuple
    → S
    → Option (List Tuple × S)
push_or_stop res rest none s = some (res, s)
push_or_stop res rest (some tup) s = rest (res ++ tup ∷ []) s

unfoldable pub go_on_or_stop : {S : Type 0} → (S → Option S) → Option Tuple → S → Option S
go_on_or_stop rest none s = some s
go_on_or_stop rest (some tup) s = rest s

-- The loop of `ExecuteAndCollect`, with the tuples collected so far.
unfoldable pub collect :
    {S : Type 0} → Operator S → ℕ → ℕ → List Tuple → S → Option (List Tuple × S)
collect plan fuel zero res s = none
collect {S} plan fuel (suc turns) res s =
    let rest : List Tuple → S → Option (List Tuple × S) = collect plan fuel turns in
    plan.next fuel s >>= λ r. push_or_stop res rest r.0 r.1

-- `Executor::ExecuteAndCollect`
unfoldable pub execute_and_collect : {S : Type 0} → Operator S → ℕ → S → Option (List Tuple × S)
execute_and_collect plan fuel s =
    collect plan fuel fuel [] (plan.open_op s) >>= λ r. some (r.0, plan.close_op r.1)

-- `Executor::Execute`, which drops the tuples.
unfoldable pub run : {S : Type 0} → Operator S → ℕ → ℕ → S → Option S
run plan fuel zero s = none
run {S} plan fuel (suc turns) s =
    let rest : S → Option S = run plan fuel turns in
    plan.next fuel s >>= λ r. go_on_or_stop rest r.0 r.1

unfoldable pub execute : {S : Type 0} → Operator S → ℕ → S → Option S
execute plan fuel s = run plan fuel fuel (plan.open_op s) >>= λ s'. some (plan.close_op s')

module _ {S : Type 0} (plan : Operator S) (fuel : ℕ) where
  collect-Streams :
      (turns : ℕ) (res : List Tuple) (s : S) (ts : List Tuple)
      → length ts < turns
      → Streams plan fuel s ts
      → (s' : S) × (collect plan fuel turns res s ≡ some (res ++ ts, s'))
        × (run plan fuel turns s ≡ some s')
  unfolding collect run push_or_stop go_on_or_stop
  collect-Streams zero res s ts l h = absurd (omega arith)
  collect-Streams (suc turns) res s [] l h = (h.0, rw (h.1, append-nil res), rw (h.1))
  collect-Streams (suc turns) res s (t ∷ ts) l h =
      let r = collect-Streams turns (res ++ t ∷ []) h.0 ts (omega arith) h.2 in
      (r.0, rw (h.1, r.1, append_assoc res (t ∷ []) ts), rw (h.1) r.2)

  -- Running a plan that produces `ts` collects exactly `ts`, and running it without collecting
  -- ends in the same state; the bound on the turns of the loop is above the number of tuples.
  pub execute-Produces :
      (s : S) (ts : List Tuple)
      → length ts < fuel
      → Produces plan fuel s ts
      → (s' : S) × (execute_and_collect plan fuel s ≡ some (ts, s'))
        × (execute plan fuel s ≡ some s')
  unfolding execute_and_collect execute
  execute-Produces s ts l h =
      let r = collect-Streams fuel [] (plan.open_op s) ts l h in
      (plan.close_op r.0, rw (r.1), rw (r.2))

-- A plan of the four operators.
abbrev pub query :
    {D : Type 0}
    → IDiskManager D
    → ℕ
    → Relation
    → Predicate
    → List ℕ
    → Schema
    → ℕ
    → Operator (Limited (ScanState D))
query dm turns rel pred col_pos out_schema limit =
    limit_op (projection_op (filter_op (seq_scan_op dm turns rel) pred) col_pos out_schema) limit

-- On a valid pool over a disk that keeps pages, with an unpinned frame and room for a pin on every
-- frame, where the pages of a relation's chain are all in the pool and its records that are not
-- deleted decode to the tuples `ts`: a limit over a projection over a filter over a scan of the
-- relation collects the first `limit` of the projections of those tuples that satisfy the predicate,
-- in the order of the records; the limit is a 64-bit size, and the bounds on the turns of the loops
-- are above the number of tuples and above the number of pages.
pub execute-query :
    {D : Type 0} (dm : IDiskManager D) {Stores : D → ℕ → Page → Type 0} (k : KeepsPages dm Stores)
    (turns : ℕ) (rel : Relation) (pred : Predicate) (col_pos : List ℕ) (out_schema : Schema)
    (limit fuel produced : ℕ) (b : BufferManager D) (es : List Entry) (it : HeapIterator)
    (ts : List Tuple)
    → limit < 2 ^ 64
    → length ts < fuel
    → Ready b
    → Chain k b es invalid_page_id
    → InPool b es
    → length es < turns
    → rel.hf.first_page_id ≡ head_id es invalid_page_id
    → Decodes rel.decode (live_records es) ts
    → (s' : Limited (ScanState D)) × (execute_and_collect
          (query dm turns rel pred col_pos out_schema limit)
          fuel
          (record { child = some (it, b); produced = produced })
        ≡ some (take limit (map (project col_pos out_schema) (filter (evaluate pred) ts)), s'))
execute-query dm k turns rel pred col_pos out_schema limit fuel produced b es it ts bound l r c h l'
      first d =
    let scan = seq_scan_op dm turns rel in
    let st = some (it, b) in
    let kept = filter (evaluate pred) ts in
    let out = map (project col_pos out_schema) kept in
    let a = seq_scan_op-Produces dm k turns rel fuel b es it ts r c h l' first d in
    let e = filter_op-Produces scan pred fuel st ts l a in
    let p = projection_op-Produces (filter_op scan pred) col_pos out_schema fuel st kept e in
    let q =
      limit_op-Produces (projection_op (filter_op scan pred) col_pos out_schema) limit fuel bound
        (record { child = st; produced = produced }) out p in
    let few : length (take limit out) < fuel = omega (
      arith,
      length-take_le limit out,
      length-map_le (project col_pos out_schema) kept,
      length-filter_le (evaluate pred) ts,
      l,
    ) in
    let z =
      execute-Produces (query dm turns rel pred col_pos out_schema limit) fuel
        (record { child = st; produced = produced }) (take limit out) few q in
    (z.0, z.1)
