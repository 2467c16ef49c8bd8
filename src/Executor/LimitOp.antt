-- ===== src/Executor/LimitOp.antt =====
-- src/executor/operators/limit_op.cpp
use cpp_relational_db.Base.{
  ℕ, zero, suc, ◌+◌, ◌-◌, ◌%◌, ◌^◌, ◌<◌, ◌≡◌, List, [], ◌∷◌, Option, none, some, take,
  if◌then◌else◌, ◌>>=◌, arith, leb, le→leb, lt→leb,
}
use cpp_relational_db.Catalog.Types.{Tuple}
use cpp_relational_db.Executor.Operator.{Operator, Streams, Produces}

-- The state of the operator: that of its child, and `_produced`.
pub record Limited (S : Type 0) : Type 0 where
  pub child : S
  pub produced : ℕ

-- `_produced` counts the tuples handed out since `Open`.
abbrev count_up : {S : Type 0} → Limited S → Option Tuple × S → Option Tuple × Limited S
count_up s (none, c) = (none, record s { child = c })
count_up s (some tup, c) = (some tup, record s { child = c; produced = (s.produced + 1) % 2 ^ 64 })

unfoldable pub limit_op : {S : Type 0} → Operator S → ℕ → Operator (Limited S)
limit_op child limit = record {
  open_op = λ s. record s { child = child.open_op s.child; produced = 0 };
  next = λ fuel s.
      let pulled = child.next fuel s.child >>= λ r. some (count_up s r) in
      if leb limit s.produced then some (none, s) else pulled;
  close_op = λ s. record s { child = child.close_op s.child };
}

module _ {S : Type 0} (child : Operator S) (limit fuel : ℕ) (bound : limit < 2 ^ 64) where
  limit_op-Streams :
      (n : ℕ) (s : Limited S) (ts : List Tuple)
      → n ≡ limit - s.produced
      → Streams child fuel s.child ts
      → Streams (limit_op child limit) fuel s (take n ts)
  unfolding limit_op
  limit_op-Streams zero s ts e h = (s, rw (le→leb limit s.produced (omega arith)))
  limit_op-Streams (suc n) s [] e h =
      (record s { child = h.0 }, rw (lt→leb limit s.produced (omega arith), h.1))
  limit_op-Streams (suc n) s (t ∷ ts) e h =
      let s' = record s { child = h.0; produced = (s.produced + 1) % 2 ^ 64 } in
      (
        s',
        rw (lt→leb limit s.produced (omega arith), h.1),
        limit_op-Streams n s' ts (omega arith) h.2,
      )

  -- A limit over a child that produces `ts` produces the first `limit` tuples of `ts`, all of them
  -- when there are no more, whatever it had handed out before it was opened again; the limit is a
  -- 64-bit size.
  pub limit_op-Produces :
      (s : Limited S) (ts : List Tuple)
      → Produces child fuel s.child ts
      → Produces (limit_op child limit) fuel s (take limit ts)
  unfolding limit_op
  limit_op-Produces s ts h =
      let s' = record s { child = child.open_op s.child; produced = 0 } in
      limit_op-Streams limit s' ts (omega arith) h
