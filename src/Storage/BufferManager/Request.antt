-- ===== src/Storage/BufferManager/Request.antt =====
-- `request()`: it serves the page, or throws because every frame is pinned.
use cpp_relational_db.Base.{
  ℕ, ◌+◌, ◌%◌, ◌^◌, ◌<◌, ◌≡◌, ◌≢◌, inl, inr, refl, sym, ap, ◌∙◌, subst, Option, none, some, List,
  [], ◌∷◌, true, arith, length, has, NoDup, Option-cases, if◌then◌else◌,
}
use cpp_relational_db.Storage.Bytes.{Page}
use cpp_relational_db.Storage.Disk.{IDiskManager, KeepsPages, IsPageId}
use cpp_relational_db.Storage.ClockPolicy.{record_access, choose_victim}
use cpp_relational_db.Storage.ClockPolicy.Valid.{record_access-IsValid}
use cpp_relational_db.Storage.ClockPolicy.Victim.{
  choose_victim-IsValid, choose_victim-unpinned, choose_victim-finds,
}
use cpp_relational_db.Storage.FreeList
use cpp_relational_db.Storage.BufferManager.{
  BufferManager, no_candidates, Outcome, returned, thrown, frame, pin, evict, evict_victim,
  load_free, load_evicted, request,
}
use cpp_relational_db.Storage.BufferManager.Invariant.{
  Akin-trans, SameCache-Akin, IsValid, cached, on_disk, Preserves, SameCache, SameCache-IsValid,
  SameCache-Preserves,
}
use cpp_relational_db.Storage.BufferManager.Pins.{
  pin_self, pin_ne, SameCache-trans, pin-SameCache, policy-SameCache,
}
use cpp_relational_db.Storage.BufferManager.Evict.{Evicts, emptied-Evicts, IsVacant}
use cpp_relational_db.Storage.BufferManager.Load.{Serves, load-Serves}

module _ {D : Type 0} (dm : IDiskManager D) {Stores : D → ℕ → Page → Type 0}
    (k : KeepsPages dm Stores) where
  pub data Requested (b : BufferManager D) (pid : ℕ) : Outcome (BufferManager D) ℕ → Type 0 where
    served :
        {f : ℕ} {b' : BufferManager D} → Serves dm k b pid f b' → Requested b pid (returned f b')
    refused :
        {b' : BufferManager D}
        → b.page_table pid ≡ none
        → b.free_list ≡ []
        → ((g : ℕ) → g < length b.pool → (frame b g).pin_count ≢ 0)
        → SameCache b b'
        → Requested b pid (thrown no_candidates b')

  pub data Evicted (b : BufferManager D) : Outcome (BufferManager D) ℕ → Type 0 where
    emptied : {f : ℕ} {b' : BufferManager D} → Evicts dm k b f b' → Evicted b (returned f b')
    none_left :
        {b' : BufferManager D}
        → ((g : ℕ) → g < length b.pool → (frame b g).pin_count ≢ 0)
        → SameCache b b'
        → Evicted b (thrown no_candidates b')

  module _ (b : BufferManager D) (v : IsValid b) (full : b.free_list ≡ []) where
    abbrev pins : ℕ → ℕ
    pins f = (frame b f).pin_count

    abbrev chosen : BufferManager D
    chosen = record b { policy = (choose_victim pins b.policy).0 }

    chosen-SameCache : SameCache b chosen
    chosen-SameCache =
        policy-SameCache b _ (λ w. (choose_victim-IsValid pins b.policy w).0)
          (choose_victim-IsValid pins b.policy v.clock).1

    all_pinned :
        (choose_victim pins b.policy).1 ≡ none
        → (g : ℕ) → g < length b.pool
        → (frame b g).pin_count ≢ 0
    all_pinned e g l z =
        let at = v.clock_frames g l in
        let (f, e') =
          choose_victim-finds pins b.policy v.clock g (rw v.clock_size l)
            (subst (λ h. pins h ≡ 0) (sym at) z) in
        cc

    victim_lem :
        (f : ℕ)
        → (choose_victim pins b.policy).1 ≡ some f
        → (f < length b.pool) × ((frame b f).pin_count ≡ 0)
    victim_lem f e =
        let (p, l, at, z) = choose_victim-unpinned pins b.policy v.clock f e in
        let m = subst (λ n. p < n) v.clock_size l in
        (subst (λ g. g < length b.pool) (sym (at ∙ v.clock_frames p m)) m, z)

    Evicts-chosen : {f : ℕ} {b' : BufferManager D} → Evicts dm k chosen f b' → Evicts dm k b f b'
    Evicts-chosen e = record {
      valid = e.valid;
      kept = λ p x h. e.kept p x (SameCache-Preserves chosen-SameCache Stores p x h);
      vacant = e.vacant;
      absent = e.absent;
      pins = e.pins;
      akin = Akin-trans k (SameCache-Akin k chosen-SameCache) e.akin;
    }

    evict_victim-Evicted :
        (victim : Option ℕ)
        → (choose_victim pins b.policy).1 ≡ victim
        → Evicted b (evict_victim dm chosen victim)
    unfolding evict_victim
    evict_victim-Evicted none e = none_left (all_pinned e) chosen-SameCache
    evict_victim-Evicted (some f) e =
        let (l, z) = victim_lem f e in
        rw (z) (
          emptied (
            Evicts-chosen
              (emptied-Evicts dm k chosen f (SameCache-IsValid chosen-SameCache v) l (rw full))))

    pub evict-Evicted : Evicted b (evict dm b)
    unfolding evict
    evict-Evicted = evict_victim-Evicted _ refl

  module _ (b : BufferManager D) (pid : ℕ) (v : IsValid b) (q : IsPageId pid) where
    -- A hit.
    module _ (f : ℕ) (t : b.page_table pid ≡ some f) where
      abbrev hit : BufferManager D
      hit = record (pin b f) { policy = record_access (pin b f).policy f }

      pinned-hit : SameCache (pin b f) hit
      pinned-hit =
          policy-SameCache (pin b f) _ (λ w. (record_access-IsValid (pin b f).policy f w).0)
            (unfold pin in (record_access-IsValid b.policy f v.clock).1)

      hit-Serves : Serves dm k b pid f hit
      hit-Serves =
          let s = SameCache-trans (pin-SameCache b f) pinned-hit in
          record {
            valid = SameCache-IsValid s v;
            kept = SameCache-Preserves s Stores;
            there = rw s.page_table t;
            pinned = pin_self b f (v.table pid f t).0;
            others = pin_ne b f;
            akin = SameCache-Akin k s;
          }

      request-hit : request dm b pid ≡ returned f hit
      unfolding request
      request-hit = rw (t, request)

    -- A miss with a free frame.
    module _ (f : ℕ) (rest : List ℕ) (listed : b.free_list ≡ f ∷ rest) where
      abbrev popped : BufferManager D
      popped = record b { free_list = rest }

      listed_has : (g : ℕ) → has rest g ≡ true → has b.free_list g ≡ true
      listed_has g h = rw listed (ground arith)

      popped-IsValid : IsValid popped
      popped-IsValid = record {
        table = v.table;
        mapped = v.mapped;
        ids = v.ids;
        named = v.named;
        free = λ g h. v.free g (listed_has g h);
        nodup = (subst NoDup listed v.nodup).1;
        clock = v.clock;
        clock_size = v.clock_size;
        clock_frames = v.clock_frames;
      }

      popped-Preserves : Preserves Stores b popped
      popped-Preserves p x (cached g t e w) = cached g t e w
      popped-Preserves p x (on_disk t e) = on_disk t e

      popped-IsVacant : IsVacant popped f
      popped-IsVacant =
          let (l, i) = v.free f (rw listed (ground arith)) in
          record { within = l; no_page = i; taken = (subst NoDup listed v.nodup).0 }

      free-Requested : b.page_table pid ≡ none → Requested b pid (load_free dm b pid (rest, some f))
      unfolding load_free
      free-Requested miss =
          let (b', e, s) = load-Serves dm k popped pid f popped-IsValid popped-IsVacant miss q in
          rw e (
            served (record {
              valid = s.valid;
              kept = λ p x h. s.kept p x (popped-Preserves p x h);
              there = s.there;
              pinned = s.pinned;
              others = s.others;
              akin = Akin-trans k (record { size = refl; ids = refl }) s.akin;
            }))

    -- A miss with no free frame.
    evicted-Requested :
        b.page_table pid ≡ none
        → b.free_list ≡ []
        → (o : Outcome (BufferManager D) ℕ) → Evicted b o
        → Requested b pid (load_evicted dm pid o)
    unfolding load_evicted
    evicted-Requested miss full o (emptied {f} {b'} e) =
        let (b'', eq, s) = load-Serves dm k b' pid f e.valid e.vacant (e.absent pid miss) q in
        rw eq (
          served (record {
            valid = s.valid;
            kept = λ p x h. s.kept p x (e.kept p x h);
            there = s.there;
            pinned = s.pinned ∙ ap (λ n. (n + 1) % 2 ^ 32) (e.pins f);
            others = λ g ne. s.others g ne ∙ e.pins g;
            akin = Akin-trans k e.akin s.akin;
          }))
    evicted-Requested miss full o (none_left all same) = refused miss full all same

    abbrev ByList : List ℕ → Type 0
    ByList l = Requested b pid (
        if FreeList.empty l
        then load_evicted dm pid (evict dm b)
        else load_free dm b pid (FreeList.get l))

    miss-Requested :
        (l : List ℕ)
        → b.free_list ≡ l
        → b.page_table pid ≡ none
        → Requested b pid (request dm b pid)
    unfolding request FreeList.empty FreeList.get
    miss-Requested [] e miss =
        rw (miss, request) (subst ByList (sym e) (evicted-Requested miss e _ (evict-Evicted b v e)))
    miss-Requested (f ∷ rest) e miss =
        rw (miss, request) (subst ByList (sym e) (free-Requested f rest e miss))

    pub request-Requested : Requested b pid (request dm b pid)
    request-Requested = elim (Option-cases (b.page_table pid)) [
      | inl miss ↦ miss-Requested b.free_list refl miss
      | inr (f, t) ↦ rw (request-hit f t) (served (hit-Serves f t))
    ]
