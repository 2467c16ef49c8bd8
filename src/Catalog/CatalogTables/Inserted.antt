-- ===== src/Catalog/CatalogTables/Inserted.antt =====
-- A table's row that is inserted is found.
use cpp_relational_db.Base.{
  ℕ, ◌+◌, ◌<◌, ◌≤◌, ◌≡◌, ◌++◌, inl, inr, sym, ap, ◌∙◌, subst, List, [], ◌∷◌, none, some, length,
  map, Bool-cases, length-append, length-map_le, arith,
}
use cpp_relational_db.Storage.Bytes.{Page}
use cpp_relational_db.Storage.Disk.{IDiskManager, KeepsPages, invalid_page_id}
use cpp_relational_db.Storage.SlottedPage.{size_of_slot}
use cpp_relational_db.Storage.BufferManager.{BufferManager, returned}
use cpp_relational_db.Access.HeapFile.{HeapFile, Rid}
use cpp_relational_db.Access.HeapFile.Ids.{IsSound}
use cpp_relational_db.Access.HeapFile.Visit.{Ready}
use cpp_relational_db.Access.HeapFile.Chain.{Entry, Chain}
use cpp_relational_db.Access.HeapIterator.Live.{live_records}
use cpp_relational_db.Catalog.Types.{TableInfo}
use cpp_relational_db.Catalog.TableInfoCodec
use cpp_relational_db.Catalog.CatalogTables.{tables_codec, insert_row, lookup, same_text}
use cpp_relational_db.Catalog.CatalogTables.Rows.{All-insert, Filed, insert_row-RowInserted}
use cpp_relational_db.Catalog.CatalogTables.Lookup.{
  same_text_self, All, find_table, Unchanged, lookup-find_table,
}

module _ (row : TableInfo) where
  pub find_table-insert :
      (r₁ r₂ : List TableInfo)
      → find_table row.table_name (r₁ ++ r₂) ≡ none
      → find_table row.table_name (r₁ ++ row ∷ r₂) ≡ some row
  find_table-insert [] r₂ h = rw (same_text_self row.table_name)
  find_table-insert (r ∷ r₁) r₂ h = elim (Bool-cases (same_text r.table_name row.table_name)) [
    | inl is ↦ let no : some r ≡ none = rw is at h in cc
    | inr isnt ↦
        let rest : find_table row.table_name (r₁ ++ r₂) ≡ none = rw isnt at h in
        rw isnt (find_table-insert r₁ r₂ rest)
  ]

module _ {D : Type 0} (dm : IDiskManager D) {Stores : D → ℕ → Page → Type 0}
    (k : KeepsPages dm Stores) (turns n heap : ℕ) (hf : HeapFile) (b : BufferManager D) (e : Entry)
    (es : List Entry) (r : Ready b) (sound : IsSound (k.ids b.disk))
    (c : Chain k b (e ∷ es) invalid_page_id) (l : length (e ∷ es) + 1 < turns)
    (first : hf.first_page_id ≡ e.id) (rows : List TableInfo) (fits : All TableInfoCodec.Fits rows)
    (same : live_records (e ∷ es) ≡ map TableInfoCodec.encode rows) (m : length rows + 1 < n) where
  -- On a valid pool over a disk that keeps pages and does not run out of page ids, with an unpinned
  -- frame and room for a pin on every frame, and a heap file with a first page whose chain's records
  -- that are not deleted are the encodings of `rows`, with more turns for each loop than pages and
  -- records will be, a row whose name no row of `rows` has and whose encoding fits an empty page is
  -- inserted, and then `Lookup` of its name returns it.
  pub insert_row-lookup :
      (row : TableInfo)
      → TableInfoCodec.Fits row
      → length (TableInfoCodec.encode row) + size_of_slot ≤ 8180
      → find_table row.table_name rows ≡ none
      → (rid : Rid) × (b₁ : BufferManager D) × (b₂ : BufferManager D) × (insert_row dm turns
            tables_codec hf b row
          ≡ returned (some (some rid)) (hf, b₁))
        × (lookup dm turns n heap hf b₁ row.table_name ≡ returned (some (some row)) b₂)
        × Unchanged k b₁ b₂
  insert_row-lookup row fit small missing =
      let filed : Filed k TableInfoCodec.encode hf b (e ∷ es) rows = record {
        proper = rw first c.0.is_id;
        first = first;
        chain = c;
        records = same;
      } in
      let (rid, b₁, eq, i) =
        insert_row-RowInserted dm k turns tables_codec hf b (e ∷ es) rows row r sound filed
          (omega (arith, l)) (TableInfoCodec.encode_nonempty row) small in
      let all = i.before ++ row ∷ i.behind in
      let few : length (live_records i.pages) < n = omega (
        arith,
        m,
        ap length i.filed.records,
        ap length i.split,
        length-append i.before i.behind,
        length-append i.before (row ∷ i.behind),
        length-map_le TableInfoCodec.encode all,
      ) in
      let found : find_table row.table_name all ≡ some row =
        find_table-insert row i.before i.behind
          (ap (find_table row.table_name) (sym i.split) ∙ missing) in
      let (b₂, eq', same') =
        lookup-find_table dm k turns n heap hf b₁ i.pages i.inserted.ready i.filed.chain
          (omega (arith, i.few, l)) i.filed.first few all row.table_name
          (All-insert TableInfoCodec.Fits i.before i.behind fit
            (subst (All TableInfoCodec.Fits) i.split fits))
          i.filed.records in
      (rid, b₁, b₂, eq, eq' ∙ ap (λ o. returned (some o) b₂) found, same')
