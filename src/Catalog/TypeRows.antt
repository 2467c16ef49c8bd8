-- ===== src/Catalog/TypeRows.antt =====
-- The rows of a catalog's types, beside those of its tables and their columns.
use cpp_relational_db.Base.{
  ◌∙◌, ℕ, ◌+◌, ◌^◌, ◌<◌, ◌≤◌, ◌≡◌, ◌++◌, refl, subst, List, [], ◌∷◌, some, length,
}
use cpp_relational_db.Storage.Bytes.{Page}
use cpp_relational_db.Storage.Disk.{IDiskManager, KeepsPages, invalid_page_id}
use cpp_relational_db.Storage.SlottedPage.{size_of_slot}
use cpp_relational_db.Storage.BufferManager.{BufferManager, returned}
use cpp_relational_db.Storage.BufferManager.Invariant.{Holds}
use cpp_relational_db.Access.HeapFile.{HeapFile, Rid}
use cpp_relational_db.Access.HeapFile.Ids.{InUse, Grown}
use cpp_relational_db.Access.HeapFile.Chain.{Entry, Away, Chain, Node-kept}
use cpp_relational_db.Access.HeapFile.Apart.{Apart, Apart-sym, Chain-Apart, Chain-beside}
use cpp_relational_db.Access.HeapFile.Insert.{Inserted}
use cpp_relational_db.Catalog.Types.{TableInfo, ColumnInfo, TypeInfo}
use cpp_relational_db.Catalog.TypeInfoCodec
use cpp_relational_db.Catalog.CatalogTables.{types_codec}
use cpp_relational_db.Catalog.CatalogTables.Lookup.{All}
use cpp_relational_db.Catalog.CatalogTables.Rows.{All-insert, Filed, insert_row-RowInserted}
use cpp_relational_db.Catalog.Operations.{Catalog, insert_type}
use cpp_relational_db.Catalog.Extended.{HoldsRows, Extended}

-- A row that its codec can write and read, and that fits an empty page.
abbrev pub TypeWritable : TypeInfo → Type 0
TypeWritable row =
    TypeInfoCodec.Fits row × (length (TypeInfoCodec.encode row) + size_of_slot ≤ 8180)

module _ {D : Type 0} {dm : IDiskManager D} {Stores : D → ℕ → Page → Type 0}
    (k : KeepsPages dm Stores) where
  -- The heap file of `db_types` holds the rows `tys`, on pages that are neither in `pt` nor in `pa`.
  pub record HoldsTypes (c : Catalog D) (pt pa py : List Entry) (tys : List TypeInfo) : Type 0 where
    pub hy : HeapFile
    pub has_types : c.types ≡ some hy
    pub types : Filed k TypeInfoCodec.encode hy c.bm py tys
    pub tables_apart : Apart py pt
    pub attributes_apart : Apart py pa
    pub types_fit : All TypeInfoCodec.Fits tys

  -- A chain that is apart from both heap files stays, and stays apart.
  Chain-Extended :
      {n : ℕ} {c c' : Catalog D} {pt pa pt' pa' : List Entry}
      → Extended k n c pt pa c' pt' pa'
      → (es : List Entry) → Chain k c.bm es invalid_page_id
      → Apart es pt
      → Apart es pa
      → Chain k c'.bm es invalid_page_id × Apart es pt' × Apart es pa'
  Chain-Extended x [] ch v w = (tt, tt, tt)
  Chain-Extended x (e ∷ es) (n, d, ch) (v, vs) (w, ws) =
      let (ch', vs', ws') = Chain-Extended x es ch vs ws in
      let (v', w') = x.own e.id n.used v w in
      (
        (Node-kept k x.grown.more (λ z h. x.others e.id z n.used v w h) n, d, ch'),
        (v', vs'),
        (w', ws'),
      )

  pub HoldsTypes-Extended :
      {n : ℕ} {c c' : Catalog D} {pt pa pt' pa' py : List Entry} {tys : List TypeInfo}
      → Extended k n c pt pa c' pt' pa'
      → HoldsTypes c pt pa py tys
      → HoldsTypes c' pt' pa' py tys
  HoldsTypes-Extended {py} x h =
      let (ch, v, w) = Chain-Extended x py h.types.chain h.tables_apart h.attributes_apart in
      record {
        hy = h.hy;
        has_types = x.types ∙ h.has_types;
        types = record {
          proper = h.types.proper;
          first = h.types.first;
          chain = ch;
          records = h.types.records;
        };
        tables_apart = v;
        attributes_apart = w;
        types_fit = h.types_fit;
      }

module _ {D : Type 0} (dm : IDiskManager D) {Stores : D → ℕ → Page → Type 0}
    (k : KeepsPages dm Stores) (turns : ℕ) (c : Catalog D) (pt pa py : List Entry)
    (ts : List TableInfo) (cols : List ColumnInfo) (tys : List TypeInfo)
    (holds : HoldsRows k c pt pa ts cols) (h : HoldsTypes k c pt pa py tys)
    (left : (k.ids c.bm.disk).next + 1 < 2 ^ 31) where
  Filed-Inserted :
      {A : Type 0} (encode : A → List ℕ) (hf : HeapFile) (es fs : List Entry) (rows : List A)
      (b' : BufferManager D)
      → Inserted dm k 1 c.bm py fs b'
      → Apart es py
      → Filed k encode hf c.bm es rows
      → Filed k encode hf b' es rows
  Filed-Inserted encode hf es fs rows b' i a f = record {
    proper = f.proper;
    first = f.first;
    chain = Chain-beside k c.bm b' es py invalid_page_id i.grown.more i.others f.chain a;
    records = f.records;
  }

  -- A type's row is inserted among the others; the tables' and columns' rows stay, and so does every
  -- page in use outside of the heap file of types.
  pub insert_type-HoldsTypes :
      (row : TypeInfo)
      → TypeWritable row
      → length py < turns
      → (rid : Rid) × (c' : Catalog D) × (py' : List Entry) × (before : List TypeInfo)
        × (behind : List TypeInfo) × (insert_type dm turns c row ≡ returned (some (some rid)) c')
        × (tys ≡ before ++ behind)
        × HoldsRows k c' pt pa ts cols
        × HoldsTypes k c' pt pa py' (before ++ row ∷ behind)
        × Grown 1 (k.ids c.bm.disk) (k.ids c'.bm.disk)
        × ((p : ℕ) (z : Page)
            → InUse (k.ids c.bm.disk) p
            → Away p py
            → Holds Stores c.bm p z
            → Holds Stores c'.bm p z × Away p py')
        × (c'.tables ≡ c.tables)
        × (c'.attributes ≡ c.attributes)
        × (length py' ≤ length py + 1)
  unfolding insert_type
  insert_type-HoldsTypes row (fit, small) l =
      let (rid, b', eq, i) =
        insert_row-RowInserted dm k turns types_codec h.hy c.bm py tys row holds.ready holds.sound
          h.types l (TypeInfoCodec.encode_nonempty row) small in
      let j = i.inserted in
      let at = Apart-sym py pt h.tables_apart in
      let aa = Apart-sym py pa h.attributes_apart in
      (
        rid,
        record c { types = some h.hy; bm = b' },
        i.pages,
        i.before,
        i.behind,
        rw (h.has_types, eq),
        i.split,
        record {
          ready = j.ready;
          sound = j.grown.sound holds.sound left;
          ht = holds.ht;
          ha = holds.ha;
          has_tables = holds.has_tables;
          has_attributes = holds.has_attributes;
          tables = Filed-Inserted _ holds.ht pt i.pages ts b' j at holds.tables;
          attributes = Filed-Inserted _ holds.ha pa i.pages cols b' j aa holds.attributes;
          apart = holds.apart;
          tables_fit = holds.tables_fit;
          columns_fit = holds.columns_fit;
        },
        record {
          hy = h.hy;
          has_types = refl;
          types = i.filed;
          tables_apart =
              Apart-sym pt i.pages
                (Chain-Apart k c.bm pt py i.pages invalid_page_id j.own holds.tables.chain at);
          attributes_apart =
              Apart-sym pa i.pages
                (Chain-Apart k c.bm pa py i.pages invalid_page_id j.own holds.attributes.chain aa);
          types_fit =
              All-insert TypeInfoCodec.Fits i.before i.behind fit
                (subst (All TypeInfoCodec.Fits) i.split h.types_fit);
        },
        j.grown,
        λ p z u v held. (j.others p z u v held, j.own p u v),
        refl,
        refl,
        i.few,
      )
