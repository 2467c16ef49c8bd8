-- ===== src/Access/HeapFile/History/Operations.antt =====
-- `HeapFile::Get`, `Update` and `Delete` on a heap file that holds the map of a history.
use mathlib.Core.Option
use cpp_relational_db.Base.{
  suc, ℕ, ◌≡◌, inl, inr, ◌==◌, ◌&&◌, Bool, true, false, refl, sym, ap, ◌∙◌, subst, List, [], Option,
  Bool-cases, if◌then◌else◌, ==→eq, arith,
}
use cpp_relational_db.Storage.Bytes.{Page}
use cpp_relational_db.Storage.Disk.{IDiskManager, KeepsPages, PageIds, IsPageId, invalid_page_id}
use cpp_relational_db.Storage.SlottedPage.{from_buffer, free_space}
use cpp_relational_db.Storage.SlottedPage.Contents.{contents, live_record, nonempty}
use cpp_relational_db.Storage.SlottedPage.Update.{update_spec, delete_spec}
use cpp_relational_db.Storage.BufferManager.{BufferManager, returned}
use cpp_relational_db.Storage.BufferManager.Invariant.{Holds}
use cpp_relational_db.Access.HeapFile.{
  Rid, Record, shown, HeapFile, get, update, delete, size_of_heap_page_header,
}
use cpp_relational_db.Access.HeapFile.Ids.{IsSound, InUse, Grown, Grown-weaken}
use cpp_relational_db.Access.HeapFile.Visit.{Settled, Settled-Ready}
use cpp_relational_db.Access.HeapFile.Chain.{Entry, Chain-Preserves, Node}
use cpp_relational_db.Access.HeapFile.Reads.{get-Read}
use cpp_relational_db.Access.HeapFile.Writes.{Written, update-Written, delete-Written}
use cpp_relational_db.Access.HeapFile.View.{view, Within}
use cpp_relational_db.Access.HeapFile.At.{
  put, At, Chain-At, view-put, Within-put, head-put, length-put,
}
use cpp_relational_db.Access.HeapFile.History.Slots.{Slots, update_spec-Slots, delete_spec-Slots}
use cpp_relational_db.Access.HeapFile.History.{History, value, OnPage}
use cpp_relational_db.Access.HeapFile.History.Insertions.{logged_if, HoldsMap}

module _ {D : Type 0} (dm : IDiskManager D) {Stores : D → ℕ → Page → Type 0}
    (k : KeepsPages dm Stores) (turns : ℕ) (hf : HeapFile) (b₀ : BufferManager D)
    (sound : IsSound (k.ids b₀.disk)) where
  module _ (n : ℕ) (b : BufferManager D) (l : History)
      (h : HoldsMap dm k turns hf b₀ sound n b l) where
    value-logged_if :
        (rid : Rid) (bs : List ℕ) (t : Bool) (r : Rid)
        → (if rid.page_id == r.page_id && (t && rid.slot_id == r.slot_id)
            then nonempty bs
            else value l r)
          ≡ value (logged_if t rid bs l) r
    value-logged_if rid bs true r = refl
    value-logged_if rid bs false r = elim (Bool-cases (rid.page_id == r.page_id)) [
      | inl here ↦ rw here refl
      | inr there ↦ rw there refl
    ]

    given-logged_if :
        (rid : Rid) (bs : List ℕ) (t : Bool) (r : Rid)
        → Within rid.page_id h.pages
        → OnPage r (logged_if t rid bs l)
        → Within r.page_id h.pages
    given-logged_if rid bs true r w (inl s) = subst (λ p. Within p h.pages) (sym s) w
    given-logged_if rid bs true r w (inr v) = h.given r v
    given-logged_if rid bs false r w v = h.given r v

    Grown-on : {t : PageIds} → t ≡ k.ids b.disk → Grown (suc n) (k.ids b₀.disk) t
    Grown-on e = rw e (Grown-weaken (omega arith) h.grown)

    module _ (rid : Rid) (w : Within rid.page_id h.pages) where
      abbrev at : At k b h.pages invalid_page_id rid.page_id
      at = Chain-At k b h.pages invalid_page_id rid.page_id h.chain w

      is_id : IsPageId rid.page_id
      is_id = subst IsPageId at.is_page at.node.is_id

      holds : Holds Stores b rid.page_id at.node.page
      holds = subst (λ p. Holds Stores b p at.node.page) at.is_page at.node.holds

      -- An operation on a page of the chain, which wrote a record or did nothing.
      page-HoldsMap :
          (bs : List ℕ) (spec : List (List ℕ) × Bool) (b' : BufferManager D)
          → Slots at.entry.records rid.slot_id bs spec
          → Written dm k b rid at.node.page h.ready.valid is_id h.ready.pin_room holds
              at.node.shape.valid spec.0 b'
          → HoldsMap dm k turns hf b₀ sound (suc n) b' (logged_if spec.1 rid bs l)
      page-HoldsMap bs spec b' slots v =
          let f : Entry = record {
            id = rid.page_id;
            room = free_space (from_buffer v.page size_of_heap_page_header);
            records = spec.0;
          } in
          let node : Node k b' f at.next = record {
            page = v.page;
            holds = v.own;
            is_id = is_id;
            used = rw v.akin.ids (subst (InUse (k.ids b.disk)) at.is_page at.node.used);
            shape = record {
              valid = v.page_valid;
              records = v.records;
              room = refl;
              linked = v.linked ∙ at.node.shape.linked;
            };
          } in
          let settled : Settled k b b' = record { valid = v.valid; pins = v.pins; akin = v.akin } in
          record {
            pages = put f h.pages;
            ready = Settled-Ready k settled h.ready;
            grown = Grown-on v.akin.ids;
            proper = h.proper;
            first = h.first ∙ sym (head-put f h.pages invalid_page_id);
            chain = at.rebuilt b' (λ q u. rw v.akin.ids u) v.others f refl node;
            few = omega (arith, length-put f h.pages, h.few);
            map = λ r. view-put f h.pages r w ∙ slot r ∙ value-logged_if rid bs spec.1 r;
            given = λ r u. Within-put r.page_id f h.pages (given-logged_if rid bs spec.1 r w u);
          }
        where
          slot :
              (r : Rid)
              → (if rid.page_id == r.page_id then live_record spec.0 r.slot_id else view h.pages r)
                ≡ (if rid.page_id == r.page_id && (spec.1 && rid.slot_id == r.slot_id)
                    then nonempty bs
                    else value l r)
          slot r = elim (Bool-cases (rid.page_id == r.page_id)) [
            | inl here ↦ rw here (
                slots r.slot_id
                ∙ ap (λ o. if spec.1 && rid.slot_id == r.slot_id then nonempty bs else o)
                    (sym (at.shown r (sym (==→eq _ _ here))) ∙ h.map r))
            | inr there ↦ rw there (h.map r)
          ]

      pub update-HoldsMap :
          (bs : List ℕ)
          → (t : Bool) × (b' : BufferManager D) × (update dm b bs rid ≡ returned t b')
            × HoldsMap dm k turns hf b₀ sound (suc n) b' (logged_if t rid bs l)
      update-HoldsMap bs =
          let (b', eq, v) =
            update-Written dm k b rid at.node.page h.ready.valid is_id h.ready.pin_room holds
              at.node.shape.valid h.ready.victim h.ready.victim_within h.ready.victim_free bs in
          let room = free_space (from_buffer at.node.page size_of_heap_page_header) in
          let rs = contents (from_buffer at.node.page size_of_heap_page_header) in
          (
            _,
            b',
            eq,
            page-HoldsMap bs (update_spec room rs rid.slot_id bs) b'
                (subst (λ q. Slots q rid.slot_id bs (update_spec room rs rid.slot_id bs))
                  at.node.shape.records (update_spec-Slots room rs rid.slot_id bs))
                v,
          )

      pub delete-HoldsMap :
          (t : Bool) × (b' : BufferManager D) × (delete dm b rid ≡ returned t b')
          × HoldsMap dm k turns hf b₀ sound (suc n) b' (logged_if t rid [] l)
      delete-HoldsMap =
          let (b', eq, v) =
            delete-Written dm k b rid at.node.page h.ready.valid is_id h.ready.pin_room holds
              at.node.shape.valid h.ready.victim h.ready.victim_within h.ready.victim_free in
          let rs = contents (from_buffer at.node.page size_of_heap_page_header) in
          (
            _,
            b',
            eq,
            page-HoldsMap [] (delete_spec rs rid.slot_id) b'
                (subst (λ q. Slots q rid.slot_id [] (delete_spec rs rid.slot_id))
                  at.node.shape.records (delete_spec-Slots rs rid.slot_id))
                v,
          )

      -- A record that is read is what the map has.
      pub get-HoldsMap :
          (o : Option Record) × (b' : BufferManager D) × (get dm b rid ≡ returned o b')
          × (Option.map (shown b') o ≡ value l rid)
          × HoldsMap dm k turns hf b₀ sound (suc n) b' l
      get-HoldsMap =
          let (o, b', eq, v) =
            get-Read dm k b rid at.node.page h.ready.valid is_id h.ready.pin_room holds
              at.node.shape.valid h.ready.victim h.ready.victim_within h.ready.victim_free in
          let settled : Settled k b b' = record { valid = v.valid; pins = v.pins; akin = v.akin } in
          (
            o,
            b',
            eq,
            v.found
                ∙ ap (λ q. live_record q rid.slot_id) at.node.shape.records
                ∙ sym (at.shown rid refl)
                ∙ h.map rid,
            record {
              pages = h.pages;
              ready = Settled-Ready k settled h.ready;
              grown = Grown-on v.akin.ids;
              proper = h.proper;
              first = h.first;
              chain =
                  Chain-Preserves k (λ p u. rw v.akin.ids u) v.kept h.pages invalid_page_id h.chain;
              few = omega (arith, h.few);
              map = h.map;
              given = h.given;
            },
          )
