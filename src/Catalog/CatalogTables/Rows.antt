-- ===== src/Catalog/CatalogTables/Rows.antt =====
-- `CatalogTable::Insert` on a heap file that holds rows.
use cpp_relational_db.Base.{
  ℕ, ◌+◌, ◌<◌, ◌≤◌, ◌≡◌, ◌++◌, sym, ap, ◌∙◌, List, [], ◌∷◌, some, length, map, map-append,
  map_split, arith,
}
use cpp_relational_db.Storage.Bytes.{Page}
use cpp_relational_db.Storage.Disk.{IDiskManager, KeepsPages, IsPageId, invalid_page_id, take_id}
use cpp_relational_db.Storage.SlottedPage.{size_of_slot}
use cpp_relational_db.Storage.BufferManager.{BufferManager, returned}
use cpp_relational_db.Access.HeapFile.{HeapFile, Rid}
use cpp_relational_db.Access.HeapFile.Ids.{IsSound}
use cpp_relational_db.Access.HeapFile.Visit.{Ready}
use cpp_relational_db.Access.HeapFile.Chain.{Entry, head_id, Chain}
use cpp_relational_db.Access.HeapFile.Insert.{insert_into, Inserted, insert-insert_into}
use cpp_relational_db.Access.HeapIterator.Live.{live_records}
use cpp_relational_db.Access.HeapIterator.Extends.{insert_into-Extends}
use cpp_relational_db.Catalog.CatalogTables.{CatalogCodec, insert_row}
use cpp_relational_db.Catalog.CatalogTables.Lookup.{All}

pub All-insert :
    {A : Type 0} (P : A → Type 0) {row : A} (r₁ r₂ : List A)
    → P row
    → All P (r₁ ++ r₂)
    → All P (r₁ ++ row ∷ r₂)
All-insert P [] r₂ fit h = (fit, h)
All-insert P (r ∷ r₁) r₂ fit (f, h) = (f, All-insert P r₁ r₂ fit h)

-- A heap file with a first page, whose chain's records that are not deleted are the encodings of
-- the rows.
pub record Filed {D : Type 0} {dm : IDiskManager D} {Stores : D → ℕ → Page → Type 0}
    (k : KeepsPages dm Stores) {A : Type 0} (encode : A → List ℕ) (hf : HeapFile)
    (b : BufferManager D) (pages : List Entry) (rows : List A) : Type 0 where
  pub proper : IsPageId hf.first_page_id
  pub first : hf.first_page_id ≡ head_id pages invalid_page_id
  pub chain : Chain k b pages invalid_page_id
  pub records : live_records pages ≡ map encode rows

module _ {D : Type 0} (dm : IDiskManager D) {Stores : D → ℕ → Page → Type 0}
    (k : KeepsPages dm Stores) (turns : ℕ) {A : Type 0} (codec : CatalogCodec A) where
  -- The rows with one more among them, on at most one page more.
  pub record RowInserted (hf : HeapFile) (b : BufferManager D) (es : List Entry) (rows : List A)
      (row : A) (b' : BufferManager D) : Type 0 where
    pub pages : List Entry
    pub before : List A
    pub behind : List A
    pub inserted : Inserted dm k 1 b es pages b'
    pub split : rows ≡ before ++ behind
    pub filed : Filed k codec.encode hf b' pages (before ++ row ∷ behind)
    pub few : length pages ≤ length es + 1

  pub insert_row-RowInserted :
      (hf : HeapFile) (b : BufferManager D) (es : List Entry) (rows : List A) (row : A)
      → Ready b
      → IsSound (k.ids b.disk)
      → Filed k codec.encode hf b es rows
      → length es < turns
      → 0 < length (codec.encode row)
      → length (codec.encode row) + size_of_slot ≤ 8180
      → (rid : Rid) × (b' : BufferManager D) × (insert_row dm turns codec hf b row
          ≡ returned (some (some rid)) (hf, b'))
        × RowInserted hf b es rows row b'
  unfolding insert_row
  insert_row-RowInserted hf b [] rows row r sound f l some_bytes small =
      absurd (omega (arith, f.first, f.proper))
  insert_row-RowInserted hf b (e ∷ es) rows row r sound f l some_bytes small =
      let bs = codec.encode row in
      let new = (take_id (k.ids b.disk)).1 in
      let (rid, placed, (xs, ys, p, q), pages, head) =
        insert_into-Extends bs some_bytes new e es small in
      let (r₁, r₂, s, t, u) = map_split codec.encode rows xs ys (sym f.records ∙ p) in
      let (b₁, eq, i) =
        insert-insert_into dm k turns b e es bs (omega (arith, small)) l r sound f.chain hf
          f.first in
      (
        rid,
        b₁,
        eq ∙ ap (λ o. returned (some o) (hf, b₁)) placed,
        record {
          pages = (insert_into new (e ∷ es) bs).0;
          before = r₁;
          behind = r₂;
          inserted = i;
          split = s;
          filed = record {
            proper = f.proper;
            first = f.first ∙ sym head;
            chain = i.chain;
            records =
                q
                ∙ ap (λ v. v ++ bs ∷ ys) t
                ∙ ap (λ v. map codec.encode r₁ ++ bs ∷ v) u
                ∙ sym (map-append codec.encode r₁ (row ∷ r₂));
          };
          few = pages;
        },
      )
