-- ===== src/Executor/Operator.antt =====
-- include/executor/operator.h and predicate.h: the interface of the operators, over the state of an
-- operator and of the operators below it, and what it means that an operator produces tuples.
use cpp_relational_db.Base.{ℕ, ◌≡◌, Bool, List, [], ◌∷◌, Option, none, some}
use cpp_relational_db.Catalog.Types.{Tuple}

-- `next` takes the bound on the turns of its loop and has no result when they do not suffice, when a
-- record cannot be decoded, or when an exception leaves it, which no operator catches; a result is a
-- tuple or the end of the stream.
pub record Operator (S : Type 0) : Type 0 where
  pub open_op : S → S
  pub next : ℕ → S → Option (Option Tuple × S)
  pub close_op : S → S

pub record Predicate : Type 0 where
  pub func : Tuple → Bool

abbrev pub evaluate : Predicate → Tuple → Bool
evaluate pred tup = pred.func tup

-- From the state `s` the operator gives the tuples `ts` in order, and then the end.
abbrev pub Streams : {S : Type 0} → Operator S → ℕ → S → List Tuple → Type 0
Streams {S} op fuel s [] = (s' : S) × (op.next fuel s ≡ some (none, s'))
Streams {S} op fuel s (t ∷ ts) =
    (s' : S) × (op.next fuel s ≡ some (some t, s')) × Streams op fuel s' ts

-- The operator, once opened, gives the tuples `ts`.
abbrev pub Produces : {S : Type 0} → Operator S → ℕ → S → List Tuple → Type 0
Produces op fuel s ts = Streams op fuel (op.open_op s) ts
