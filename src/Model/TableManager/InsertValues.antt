-- ===== src/Model/TableManager/InsertValues.antt =====
-- `UserTable::Insert` of src/model/user_table.cpp on a table that is in use, and the read of the row.
mod Tests
use mathlib.Core.Option
use cpp_relational_db.Base.{
  suc, ℕ, ◌+◌, ◌^◌, ◌<◌, ◌≤◌, ◌≡◌, inl, inr, refl, sym, ap, ◌∙◌, subst, List, [], ◌∷◌, Option, none,
  some, length, arith, ==_self, ==_self, ◌==◌, if◌then◌else◌, Option-cases,
}
use cpp_relational_db.Storage.Bytes.{Page}
use cpp_relational_db.Storage.Disk.{IDiskManager, KeepsPages, IsPageId, invalid_page_id}
use cpp_relational_db.Storage.SlottedPage.{size_of_slot}
use cpp_relational_db.Storage.SlottedPage.Contents.{nonempty, nonempty_pos}
use cpp_relational_db.Storage.BufferManager.{BufferManager, returned}
use cpp_relational_db.Access.HeapFile.{Rid, Record, shown, insert, get}
use cpp_relational_db.Access.HeapFile.Ids.{IsSound}
use cpp_relational_db.Access.HeapFile.Visit.{Ready}
use cpp_relational_db.Access.HeapFile.Chain.{Chain}
use cpp_relational_db.Access.HeapFile.Shape.{blank}
use cpp_relational_db.Access.HeapFile.History.{History, value, Reach, inserted, next}
use cpp_relational_db.Access.HeapFile.History.Insertions.{insert-HoldsMap}
use cpp_relational_db.Access.HeapFile.History.Reached.{Reach-HoldsMap, Reach-get}
use cpp_relational_db.Catalog.Types.{Value}
use cpp_relational_db.Model.DynamicCodec.{encode}
use cpp_relational_db.Model.DynamicCodec.RoundTrip.{IsRow}
use cpp_relational_db.Model.UserTable.{decode_tuple, decode_tuple-encode}
use cpp_relational_db.Model.TableManager.{UserTable, insert_values}

-- The last record that was written is there.
value_last :
    (rid : Rid) (bs : List ℕ) (l : History) → 0 < length bs → value ((rid, bs) ∷ l) rid ≡ some bs
value_last rid bs l h =
    rw (==_self rid.page_id, ==_self rid.slot_id) (nonempty_pos bs (λ s. omega (arith, h, s)))

-- A record that is shown is a record.
shown_some :
    {D : Type 0} (b : BufferManager D) (o : Option Record) (bs : List ℕ)
    → Option.map (shown b) o ≡ some bs
    → (r : Record) × (o ≡ some r) × (shown b r ≡ bs)
shown_some b none bs e = let no : none ≡ some bs = e in cc
shown_some b (some r) bs e = let is : some (shown b r) ≡ some bs = e in (r, refl, cc)

-- A row whose encoding the heap file inserts.
insert_values_lem :
    {D : Type 0} (dm : IDiskManager D) (turns : ℕ) (table : UserTable) (b b₁ : BufferManager D)
    (row : List Value) (bytes : List ℕ) (o : Option (Option Rid))
    → encode row table.schema ≡ some bytes
    → insert dm turns table.hf b bytes ≡ returned o (table.hf, b₁)
    → insert_values dm turns table b row ≡ returned o (table, b₁)
unfolding insert_values
insert_values_lem dm turns table b b₁ row bytes o e i = rw (insert_values, e, i) refl

module _ {D : Type 0} (dm : IDiskManager D) {Stores : D → ℕ → Page → Type 0}
    (k : KeepsPages dm Stores) (turns : ℕ) (table : UserTable) (b₀ : BufferManager D)
    (sound : IsSound (k.ids b₀.disk)) (ready : Ready b₀) (id : ℕ)
    (first : table.hf.first_page_id ≡ id) (is_id : IsPageId id)
    (c : Chain k b₀ (blank id ∷ []) invalid_page_id) where
  -- On a valid pool over a disk that keeps pages, with an unpinned frame and room for a pin on every
  -- frame, and a user table whose heap file's chain was one empty page: after any sequence of `n`
  -- calls of `Insert`, of records shorter than 2 ^ 64 - 4 bytes, and of `Get`, `Update` and
  -- `Delete`, of ids on pages from which `Insert` gave an id out, with page ids and turns left,
  -- `UserTable::Insert` of a row of the schema whose encoding has at least one byte and with its
  -- slot at most 8180 returns a record id, as one more call of that sequence; `Get` of the id then
  -- returns a record whose bytes the table decodes as the row.
  pub insert_values-get :
      (n : ℕ) (b : BufferManager D) (l : History) (row : List Value) (bytes : List ℕ)
      → Reach dm turns table.hf b₀ n b l
      → (k.ids b₀.disk).next + n + 1 < 2 ^ 31
      → 1 + n < turns
      → IsRow table.schema row
      → encode row table.schema ≡ some bytes
      → 0 < length bytes
      → length bytes + size_of_slot ≤ 8180
      → (rid : Rid) × (b₁ : BufferManager D) × (b₂ : BufferManager D) × (r : Record)
        × (insert_values dm turns table b row ≡ returned (some (some rid)) (table, b₁))
        × Reach dm turns table.hf b₀ (suc n) b₁ ((rid, bytes) ∷ l)
        × (get dm b₁ rid ≡ returned (some r) b₂)
        × (decode_tuple table.schema (shown b₂ r)
            ≡ some (record { values = row; schema = table.schema }))
  insert_values-get n b l row bytes reach left enough h e pos fits =
      let held =
        Reach-HoldsMap dm k turns table.hf b₀ sound ready id first is_id c reach
          (omega (arith, left)) (omega (arith, enough)) in
      let (o, b₁, eq, g, placed) =
        insert-HoldsMap dm k turns table.hf b₀ sound n b l held bytes (omega (arith, fits))
          (omega (arith, left)) enough in
      let (rid, is) = placed fits in
      let done = eq ∙ ap (λ q. returned (some q) (table.hf, b₁)) is in
      let on : Reach dm turns table.hf b₀ (suc n) b₁ ((rid, bytes) ∷ l) =
        next reach (inserted bytes rid (omega (arith, fits)) done) in
      let (q, b₂, got, shows) =
        Reach-get dm k turns table.hf b₀ sound ready id first is_id c (suc n) b₁ ((rid, bytes) ∷ l)
          rid on (omega (arith, left)) (omega (arith, enough)) (inl refl) in
      let (r, there, same) = shown_some b₂ q bytes (shows ∙ value_last rid bytes l pos) in
      (
        rid,
        b₁,
        b₂,
        r,
        insert_values_lem dm turns table b b₁ row bytes (some (some rid)) e done,
        on,
        got ∙ ap (λ x. returned x b₂) there,
        ap (decode_tuple table.schema) same ∙ decode_tuple-encode table.schema row bytes h e,
      )
