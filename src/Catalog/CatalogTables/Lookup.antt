-- ===== src/Catalog/CatalogTables/Lookup.antt =====
-- What the catalog's tables find, when the records of their heap files are encodings of rows.
use cpp_relational_db.Base.{
  ℕ, ◌<◌, ◌≡◌, ◌++◌, ==_self, Bool, true, false, inl, inr, refl, sym, ap, ◌∙◌, List, [], ◌∷◌,
  Option, none, some, length, map, filter, if◌then◌else◌, Bool-cases, append_assoc, append-nil,
}
use cpp_relational_db.Storage.Bytes.{Page}
use cpp_relational_db.Storage.Disk.{IDiskManager, KeepsPages, invalid_page_id}
use cpp_relational_db.Storage.BufferManager.{BufferManager, returned}
use cpp_relational_db.Storage.BufferManager.Invariant.{Preserves}
use cpp_relational_db.Access.HeapFile.{HeapFile}
use cpp_relational_db.Access.HeapFile.Visit.{Ready, Settled}
use cpp_relational_db.Access.HeapFile.Chain.{Entry, head_id, Chain}
use cpp_relational_db.Access.HeapIterator.Live.{live_records}
use cpp_relational_db.Access.HeapIterator.Loop.{run, run_stop, run_go, for_each-run}
use cpp_relational_db.Catalog.Types.{TableInfo, ColumnInfo, TypeInfo}
use cpp_relational_db.Catalog.TableInfoCodec
use cpp_relational_db.Catalog.TableInfoCodec.{decode-encode_table_info}
use cpp_relational_db.Catalog.ColumnInfoCodec
use cpp_relational_db.Catalog.ColumnInfoCodec.{decode-encode_column_info}
use cpp_relational_db.Catalog.TypeInfoCodec
use cpp_relational_db.Catalog.TypeInfoCodec.{decode-encode_type_info}
use cpp_relational_db.Catalog.CatalogTables.{
  same_text, lookup_body, columns_body, types_body, found_table, collected, lookup, get_columns,
  get_types,
}

pub same_text_self : (xs : List ℕ) → same_text xs xs ≡ true
same_text_self [] = refl
same_text_self (x ∷ xs) = rw (==_self x) (same_text_self xs)

-- The first table of the name.
abbrev pub find_table : List ℕ → List TableInfo → Option TableInfo
find_table name [] = none
find_table name (t ∷ ts) = if same_text t.table_name name then some t else find_table name ts

-- Every row is one that its codec can write and read.
abbrev pub All : {A : Type 0} → (A → Type 0) → List A → Type 0
All P [] = Unit {0}
All P (x ∷ xs) = P x × All P xs

lookup_body-encode :
    (name : List ℕ) (t : TableInfo)
    → TableInfoCodec.Fits t
    → lookup_body name tt (TableInfoCodec.encode t)
      ≡ some (if same_text t.table_name name then inl t else inr tt)
unfolding lookup_body
lookup_body-encode name t fit = rw (decode-encode_table_info t fit)

run-lookup_body :
    (name : List ℕ) (rows : List TableInfo)
    → All TableInfoCodec.Fits rows
    → found_table (run (lookup_body name) tt (map TableInfoCodec.encode rows))
      ≡ some (find_table name rows)
run-lookup_body name [] h = refl
run-lookup_body name (t ∷ ts) (fit, fits) =
    let rest = run-lookup_body name ts fits in
    elim (Bool-cases (same_text t.table_name name)) [
      | inl is ↦
          let stop = lookup_body-encode name t fit ∙ (rw is) in
          rw is (
            ap found_table
              (run_stop (lookup_body name) tt (TableInfoCodec.encode t) (encoded ts) t stop))
      | inr isnt ↦
          let go = lookup_body-encode name t fit ∙ (rw isnt) in
          rw isnt (
            ap found_table
              (run_go (lookup_body name) tt (TableInfoCodec.encode t) (encoded ts) tt go)
            ∙ rest)
    ]
  where
    encoded : List TableInfo → List (List ℕ)
    encoded ts = map TableInfoCodec.encode ts

columns_body-encode :
    (table_id : List ℕ) (res : List ColumnInfo) (c : ColumnInfo)
    → ColumnInfoCodec.Fits c
    → columns_body table_id res (ColumnInfoCodec.encode c)
      ≡ some (inr (if same_text c.table_id table_id then res ++ c ∷ [] else res))
unfolding columns_body
columns_body-encode table_id res c fit = rw (decode-encode_column_info c fit)

run-columns_body :
    (table_id : List ℕ) (res rows : List ColumnInfo)
    → All ColumnInfoCodec.Fits rows
    → collected (run (columns_body table_id) res (map ColumnInfoCodec.encode rows))
      ≡ some (res ++ filter (λ c. same_text c.table_id table_id) rows)
run-columns_body table_id res [] h = ap some (sym (append-nil res))
run-columns_body table_id res (c ∷ cs) (fit, fits) =
    ap collected (
      run_go (columns_body table_id) res (ColumnInfoCodec.encode c) (map ColumnInfoCodec.encode cs)
        _ (columns_body-encode table_id res c fit))
    ∙ run-columns_body table_id (if same_text c.table_id table_id then res ++ c ∷ [] else res) cs
        fits
    ∙ ap some (kept (same_text c.table_id table_id))
  where
    kept :
        (t : Bool)
        → (if t then res ++ c ∷ [] else res) ++ filter (λ c. same_text c.table_id table_id) cs
          ≡ res
            ++ (if t
                then c ∷ filter (λ c. same_text c.table_id table_id) cs
                else filter (λ c. same_text c.table_id table_id) cs)
    kept true = append_assoc res (c ∷ []) _
    kept false = refl

types_body-encode :
    (res : List TypeInfo) (t : TypeInfo)
    → TypeInfoCodec.Fits t
    → types_body res (TypeInfoCodec.encode t) ≡ some (inr (res ++ t ∷ []))
unfolding types_body
types_body-encode res t fit = rw (decode-encode_type_info t fit)

run-types_body :
    (res rows : List TypeInfo)
    → All TypeInfoCodec.Fits rows
    → collected (run types_body res (map TypeInfoCodec.encode rows)) ≡ some (res ++ rows)
run-types_body res [] h = ap some (sym (append-nil res))
run-types_body res (t ∷ ts) (fit, fits) =
    ap collected (
      run_go types_body res (TypeInfoCodec.encode t) (map TypeInfoCodec.encode ts) (res ++ t ∷ [])
        (types_body-encode res t fit))
    ∙ run-types_body (res ++ t ∷ []) ts fits
    ∙ ap some (append_assoc res (t ∷ []) ts)

-- `b'` has what `b` had, on a pool like it.
abbrev pub Unchanged :
    {D : Type 0} {dm : IDiskManager D} {Stores : D → ℕ → Page → Type 0}
    → KeepsPages dm Stores
    → BufferManager D
    → BufferManager D
    → Type 0
Unchanged {Stores = Stores} k b b' = Settled k b b' × Preserves Stores b b'

module _ {D : Type 0} (dm : IDiskManager D) {Stores : D → ℕ → Page → Type 0}
    (k : KeepsPages dm Stores) (turns n heap : ℕ) (hf : HeapFile) (b : BufferManager D)
    (es : List Entry) (r : Ready b) (c : Chain k b es invalid_page_id) (l : length es < turns)
    (first : hf.first_page_id ≡ head_id es invalid_page_id) (m : length (live_records es) < n) where
  -- On a valid pool over a disk that keeps pages, with an unpinned frame and room for a pin on
  -- every frame, and a heap file whose chain's records that are not deleted are the encodings of
  -- `rows`, with more turns for each loop than pages and records, `Lookup` of a name returns the
  -- first of the rows that has it, or nothing when none has; no page's contents change.
  pub lookup-find_table :
      (rows : List TableInfo) (name : List ℕ)
      → All TableInfoCodec.Fits rows
      → live_records es ≡ map TableInfoCodec.encode rows
      → (b' : BufferManager D) × (lookup dm turns n heap hf b name
          ≡ returned (some (find_table name rows)) b')
        × Unchanged k b b'
  unfolding lookup
  lookup-find_table rows name fits same =
      let (b', eq, t, t') =
        for_each-run dm k (lookup_body name) turns n b heap hf es tt r c l first m in
      (b', rw (eq, same) (ap (λ o. returned o b') (run-lookup_body name rows fits)), (t, t'))

  -- In the same case, for encodings of column rows, `GetColumns` of a table id returns the rows of
  -- that table, in the order of the heap file; no page's contents change.
  pub get_columns-filter :
      (rows : List ColumnInfo) (table_id : List ℕ)
      → All ColumnInfoCodec.Fits rows
      → live_records es ≡ map ColumnInfoCodec.encode rows
      → (b' : BufferManager D) × (get_columns dm turns n heap hf b table_id
          ≡ returned (some (filter (λ col. same_text col.table_id table_id) rows)) b')
        × Unchanged k b b'
  unfolding get_columns
  get_columns-filter rows table_id fits same =
      let (b', eq, t, t') =
        for_each-run dm k (columns_body table_id) turns n b heap hf es [] r c l first m in
      (
        b',
        rw (eq, same) (ap (λ o. returned o b') (run-columns_body table_id [] rows fits)),
        (t, t'),
      )

  -- In the same case, for encodings of type rows, `GetTypes` returns all of them, in the order of
  -- the heap file; no page's contents change.
  pub get_types-rows :
      (rows : List TypeInfo)
      → All TypeInfoCodec.Fits rows
      → live_records es ≡ map TypeInfoCodec.encode rows
      → (b' : BufferManager D) × (get_types dm turns n heap hf b ≡ returned (some rows) b')
        × Unchanged k b b'
  unfolding get_types
  get_types-rows rows fits same =
      let (b', eq, t, t') = for_each-run dm k types_body turns n b heap hf es [] r c l first m in
      (b', rw (eq, same) (ap (λ o. returned o b') (run-types_body [] rows fits)), (t, t'))
