-- ===== src/Model/UserTable.antt =====
-- src/model/user_table.cpp: how a user table reads the records of its heap file, and a
-- scan of it.
use cpp_relational_db.Base.{ℕ, ◌<◌, length, ◌≡◌, List, [], ◌∷◌, Option, some, ◌>>=◌, map}
use cpp_relational_db.Catalog.Types.{Tuple, Value, Schema}
use cpp_relational_db.Model.DynamicCodec.{encode, decode}
use cpp_relational_db.Model.DynamicCodec.RoundTrip.{IsRow, decode-encode_row}
use cpp_relational_db.Storage.Bytes.{Page}
use cpp_relational_db.Storage.Disk.{IDiskManager, KeepsPages, invalid_page_id}
use cpp_relational_db.Storage.BufferManager.{BufferManager}
use cpp_relational_db.Access.HeapFile.Visit.{Ready}
use cpp_relational_db.Access.HeapFile.Chain.{Entry, head_id, Chain}
use cpp_relational_db.Access.HeapIterator.{HeapIterator}
use cpp_relational_db.Access.HeapIterator.Live.{live_records}
use cpp_relational_db.Access.HeapIterator.Cached.{InPool}
use cpp_relational_db.Model.TableManager.{UserTable}
use cpp_relational_db.Executor.Operator.{Produces}
use cpp_relational_db.Executor.SeqScanOp.{Relation, seq_scan_op, Decodes, seq_scan_op-Produces}

-- `UserTable::Decode` on the bytes of a record.
unfoldable pub decode_tuple : Schema → List ℕ → Option Tuple
decode_tuple schema rec =
    decode rec schema >>= λ values. some (record { values = values; schema = schema })

pub decode_tuple-encode :
    (schema : Schema) (row : List Value) (bytes : List ℕ)
    → IsRow schema row
    → encode row schema ≡ some bytes
    → decode_tuple schema bytes ≡ some (record { values = row; schema = schema })
unfolding decode_tuple
decode_tuple-encode schema row bytes h e =
    let r : decode bytes schema ≡ some row = rw (e) at (decode-encode_row schema row h) in rw (r)

-- A user table, whose heap file is at an address, as the relation that a scan goes over.
abbrev pub relation_of : ℕ → UserTable → Relation
relation_of heap table = record { heap = heap; hf = table.hf; decode = decode_tuple table.schema }

-- The records are the encodings of the rows.
abbrev pub Encoded : Schema → List (List ℕ) → List (List Value) → Type 0
Encoded schema [] [] = Unit {0}
Encoded schema [] (row ∷ rows) = ⊥
Encoded schema (r ∷ rs) [] = ⊥
Encoded schema (r ∷ rs) (row ∷ rows) =
    (encode row schema ≡ some r) × IsRow schema row × Encoded schema rs rows

-- The rows as tuples.
abbrev pub tuples_of : Schema → List (List Value) → List Tuple
tuples_of schema rows = map (λ row. record { values = row; schema = schema }) rows

pub Encoded-Decodes :
    (schema : Schema) (rs : List (List ℕ)) (rows : List (List Value))
    → Encoded schema rs rows
    → Decodes (decode_tuple schema) rs (tuples_of schema rows)
Encoded-Decodes schema [] [] h = tt
Encoded-Decodes schema [] (row ∷ rows) h = absurd h
Encoded-Decodes schema (r ∷ rs) [] h = absurd h
Encoded-Decodes schema (r ∷ rs) (row ∷ rows) (e, is, h) =
    (decode_tuple-encode schema row r is e, Encoded-Decodes schema rs rows h)

-- On a valid pool over a disk that keeps pages, with an unpinned frame and room for a pin on
-- every frame, where the pages of a user table's heap file are all in the pool and its records
-- that are not deleted are the encodings of `rows`, each a row of the table's schema: a scan of
-- the table, with more turns for the loop of `Advance` than pages, produces those rows as tuples,
-- in their order.
pub scan-user_table :
    {D : Type 0} (dm : IDiskManager D) {Stores : D → ℕ → Page → Type 0} (k : KeepsPages dm Stores)
    (turns heap fuel : ℕ) (table : UserTable) (b : BufferManager D) (es : List Entry)
    (it : HeapIterator) (rows : List (List Value))
    → Ready b
    → Chain k b es invalid_page_id
    → InPool b es
    → length es < turns
    → table.hf.first_page_id ≡ head_id es invalid_page_id
    → Encoded table.schema (live_records es) rows
    → Produces
        (seq_scan_op dm turns (relation_of heap table))
        fuel
        (some (it, b))
        (tuples_of table.schema rows)
scan-user_table dm k turns heap fuel table b es it rows r c h l first e =
    seq_scan_op-Produces dm k turns (relation_of heap table) fuel b es it
      (tuples_of table.schema rows) r c h l first
      (Encoded-Decodes table.schema (live_records es) rows e)
