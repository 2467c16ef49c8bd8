-- ===== src/Executor/ProjectionOp.antt =====
-- src/executor/operators/projection_op.cpp. The set of column positions is a list.
use cpp_relational_db.Base.{
  ℕ, ◌+◌, ◌%◌, ◌^◌, List, [], ◌∷◌, Option, none, some, map, has, if◌then◌else◌, ◌>>=◌,
}
use cpp_relational_db.Catalog.Types.{Tuple, Value, Schema}
use cpp_relational_db.Executor.Operator.{Operator, Streams, Produces}

-- The loop of `Project` from the index `idx` on. A position is looked up as a 16-bit number.
unfoldable pub project_from : List ℕ → ℕ → List Value → List Value
project_from col_pos idx [] = []
project_from col_pos idx (val ∷ vals) =
    let rest = project_from col_pos (idx + 1) vals in
    if has col_pos ((idx + 1) % 2 ^ 16) then val ∷ rest else rest

unfoldable pub project : List ℕ → Schema → Tuple → Tuple
project col_pos out_schema tup = record {
  values = project_from col_pos 0 tup.values;
  schema = out_schema;
}

abbrev project_next : {S : Type 0} → List ℕ → Schema → Option Tuple × S → Option Tuple × S
project_next col_pos out_schema (none, s) = (none, s)
project_next col_pos out_schema (some tup, s) = (some (project col_pos out_schema tup), s)

unfoldable pub projection_op : {S : Type 0} → Operator S → List ℕ → Schema → Operator S
projection_op child col_pos out_schema = record {
  open_op = child.open_op;
  next = λ fuel s. child.next fuel s >>= λ r. some (project_next col_pos out_schema r);
  close_op = child.close_op;
}

module _ {S : Type 0} (child : Operator S) (col_pos : List ℕ) (out_schema : Schema) (fuel : ℕ) where
  projection_op-Streams :
      (s : S) (ts : List Tuple)
      → Streams child fuel s ts
      → Streams
          (projection_op child col_pos out_schema)
          fuel
          s
          (map (project col_pos out_schema) ts)
  unfolding projection_op
  projection_op-Streams s [] h = (h.0, rw (h.1))
  projection_op-Streams s (t ∷ ts) h = (h.0, rw (h.1), projection_op-Streams h.0 ts h.2)

  -- A projection over a child that produces `ts` produces the projections of `ts`, in their order.
  pub projection_op-Produces :
      (s : S) (ts : List Tuple)
      → Produces child fuel s ts
      → Produces
          (projection_op child col_pos out_schema)
          fuel
          s
          (map (project col_pos out_schema) ts)
  unfolding projection_op
  projection_op-Produces s ts h = projection_op-Streams (child.open_op s) ts h
