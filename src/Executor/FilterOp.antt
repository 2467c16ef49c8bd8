-- ===== src/Executor/FilterOp.antt =====
-- src/executor/operators/filter_op.cpp
use cpp_relational_db.Base.{
  ◌⊎◌, inl, inr, ℕ, zero, suc, ◌<◌, ◌≡◌, refl, List, [], ◌∷◌, Option, none, some, length, filter,
  if◌then◌else◌, ◌>>=◌, arith, Bool-cases,
}
use cpp_relational_db.Catalog.Types.{Tuple}
use cpp_relational_db.Executor.Operator.{Operator, Predicate, evaluate, Streams, Produces}

-- One turn: the end of the stream and a tuple that matches are the result, another tuple is passed
-- over.
unfoldable pub keep_or_go_on :
    {S : Type 0}
    → Predicate
    → (S → Option (Option Tuple × S))
    → Option Tuple
    → S
    → Option (Option Tuple × S)
keep_or_go_on pred rest none s = some (none, s)
keep_or_go_on pred rest (some tup) s =
    let next = rest s in if evaluate pred tup then some (some tup, s) else next

-- The loop of `FilterOp::Next`: at most `turns` calls of the child.
unfoldable pub next_match :
    {S : Type 0} → Operator S → Predicate → ℕ → ℕ → S → Option (Option Tuple × S)
next_match child pred fuel zero s = none
next_match {S} child pred fuel (suc turns) s =
    let rest : S → Option (Option Tuple × S) = next_match child pred fuel turns in
    child.next fuel s >>= λ r. keep_or_go_on pred rest r.0 r.1

unfoldable pub filter_op : {S : Type 0} → Operator S → Predicate → Operator S
filter_op child pred = record {
  open_op = child.open_op;
  next = λ fuel s. next_match child pred fuel fuel s;
  close_op = child.close_op;
}

module _ {S : Type 0} (child : Operator S) (pred : Predicate) (fuel : ℕ) where
  -- The first match of a stream is found in as many turns as there are tuples before the next.
  next_match-Streams :
      (turns : ℕ) (s : S) (ts : List Tuple)
      → Streams child fuel s ts
      → length ts < turns
      → ((s' : S) × (next_match child pred fuel turns s ≡ some (none, s'))
          × (filter (evaluate pred) ts ≡ []))
        ⊎ ((t : Tuple) × (rest : List Tuple) × (s' : S) × (next_match child pred fuel turns s
              ≡ some (some t, s'))
            × (filter (evaluate pred) ts ≡ t ∷ filter (evaluate pred) rest)
            × Streams child fuel s' rest
            × (length rest < length ts))
  unfolding next_match keep_or_go_on
  next_match-Streams zero s ts h l = absurd (omega arith)
  next_match-Streams (suc turns) s [] h l = inl (h.0, rw (h.1), refl)
  next_match-Streams (suc turns) s (t ∷ ts) h l = elim (Bool-cases (evaluate pred t)) [
    | inl is ↦ inr (t, ts, h.0, rw (h.1, is), rw (is), h.2, omega arith)
    | inr not ↦ elim (next_match-Streams turns h.0 ts h.2 (omega arith)) [
      | inl e ↦ inl (e.0, rw (h.1, not) e.1, rw (not) e.2)
      | inr e ↦ inr (e.0, e.1, e.2, rw (h.1, not) e.3, rw (not) e.4, e.5, omega (arith, e.6))
    ]
  ]

  filter_op-Streams :
      (n : ℕ) (s : S) (ts : List Tuple)
      → length ts < n
      → length ts < fuel
      → Streams child fuel s ts
      → Streams (filter_op child pred) fuel s (filter (evaluate pred) ts)
  unfolding filter_op
  filter_op-Streams zero s ts l m h = absurd (omega arith)
  filter_op-Streams (suc n) s ts l m h = elim (next_match-Streams fuel s ts h m) [
    | inl e ↦ rw (e.2) (e.0, e.1)
    | inr e ↦
        rw (e.4)
          (e.2, e.3, filter_op-Streams n e.2 e.1 (omega (arith, e.6)) (omega (arith, e.6)) e.5)
  ]

  -- A filter over a child that produces `ts` produces those of `ts` that satisfy the predicate, in
  -- their order, with any bound on the turns of its loop above the number of tuples in `ts`.
  pub filter_op-Produces :
      (s : S) (ts : List Tuple)
      → length ts < fuel
      → Produces child fuel s ts
      → Produces (filter_op child pred) fuel s (filter (evaluate pred) ts)
  unfolding filter_op
  filter_op-Produces s ts l h =
      filter_op-Streams (suc (length ts)) (child.open_op s) ts (omega arith) l h
