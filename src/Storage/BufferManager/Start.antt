-- ===== src/Storage/BufferManager/Start.antt =====
-- The constructor: a new pool is valid, and every page is on the disk.
use cpp_relational_db.Base.{
  ℕ, zero, suc, ◌<◌, ◌≡◌, ◌≢◌, ◌⊎◌, inl, inr, refl, sym, ap, ◌∙◌, List, [], true, false, arith,
  length, has, NoDup, get_or, tabulate, replicate, length-tabulate, get_or-tabulate,
}
use cpp_relational_db.Storage.Bytes.{Page}
use cpp_relational_db.Storage.Disk.{invalid_page_id}
use cpp_relational_db.Storage.FreeList
use cpp_relational_db.Storage.ClockPolicy.{new_clock}
use cpp_relational_db.Storage.BufferManager.{
  Frame, BufferManager, new_frame, add_all, new_buffer_manager,
}
use cpp_relational_db.Storage.BufferManager.Invariant.{IsValid, Holds, on_disk}

length-replicate : {A : Type 0} (n : ℕ) (a : A) → length (replicate n a) ≡ n
length-replicate zero a = refl
length-replicate (suc n) a = ap suc (length-replicate n a)

page_id-replicate :
    (n i : ℕ) (x y : Page)
    → (get_or (replicate n (new_frame x)) i (new_frame y)).page_id ≡ invalid_page_id
page_id-replicate zero i x y = refl
page_id-replicate (suc n) zero x y = refl
page_id-replicate (suc n) (suc i) x y = page_id-replicate n i x y

dirty-replicate :
    (n i : ℕ) (x y : Page) → (get_or (replicate n (new_frame x)) i (new_frame y)).dirty ≡ 0
dirty-replicate zero i x y = refl
dirty-replicate (suc n) zero x y = refl
dirty-replicate (suc n) (suc i) x y = dirty-replicate n i x y

has-add : (l : List ℕ) (x a : ℕ) → has (FreeList.add l x) a ≡ true → (has l a ≡ true) ⊎ (x ≡ a)
unfolding FreeList.add
has-add l x a h = ground arith

has-add_ne : (l : List ℕ) (x a : ℕ) → has l a ≡ false → x ≢ a → has (FreeList.add l x) a ≡ false
unfolding FreeList.add
has-add_ne l x a h ne = ground arith

-- The constructor's loop over the frames f 0, …, f (n - 1), on a free list that has none of them.
added :
    (f : ℕ → ℕ) (n : ℕ) (l : List ℕ) (a : ℕ)
    → has (add_all (tabulate f n) l) a ≡ true
    → (has l a ≡ true) ⊎ ((i : ℕ) × (i < n) × (f i ≡ a))
added f zero l a h = inl h
added f (suc n) l a h = elim (added (λ i. f (suc i)) n (FreeList.add l (f 0)) a h) [
  | inl new ↦ elim (has-add l (f 0) a new) [ inl old ↦ inl old | inr e ↦ inr (0, omega arith, e) ]
  | inr (i, k, e) ↦ inr (suc i, omega arith, e)
]

NoDup-add_all :
    (f : ℕ → ℕ) (n : ℕ) (l : List ℕ)
    → NoDup l
    → ((i : ℕ) → i < n → has l (f i) ≡ false)
    → ((i j : ℕ) → i < n → j < n → i ≢ j → f i ≢ f j)
    → NoDup (add_all (tabulate f n) l)
NoDup-add_all f zero l d out inj = d
NoDup-add_all f (suc n) l d out inj =
    NoDup-add_all (λ i. f (suc i)) n (FreeList.add l (f 0))
      (unfold FreeList.add in (out 0 (omega arith), d))
      (λ i a.
        has-add_ne l (f 0) (f (suc i)) (out (suc i) (omega arith))
          (inj 0 (suc i) (omega arith) (omega arith) (omega arith)))
      (λ i j a b ne. inj (suc i) (suc j) (omega arith) (omega arith) (omega arith))

module _ {D : Type 0} (n : ℕ) (fresh : Page) (d : D) where
  abbrev start : BufferManager D
  start = new_buffer_manager n fresh d

  -- A new pool of at least one frame is valid.
  pub new_buffer_manager-IsValid : 0 < n → IsValid start
  unfolding new_buffer_manager new_clock
  new_buffer_manager-IsValid pos = record {
    table = λ p f e. cc;
    mapped = λ f l q. absurd (omega (arith, page_id-replicate n f fresh (λ _. 0)));
    ids = λ f l. inl (page_id-replicate n f fresh (λ _. 0));
    named = λ f l ne. absurd (ne (dirty-replicate n f fresh (λ _. 0)));
    free = λ f h. elim (added (λ i. i) n [] f h) [
      | inl e ↦ cc
      | inr (i, l, e) ↦ (
        omega (arith, length-replicate {A = Frame} n (new_frame fresh)),
        page_id-replicate n f fresh (λ _. 0),
      )
    ];
    nodup = NoDup-add_all (λ i. i) n [] tt (λ i l. refl) (λ i j a b ne. ne);
    clock = record {
      hand = omega (arith, length-tabulate (λ (i : ℕ). i) n);
      bits = length-replicate (length (tabulate (λ (i : ℕ). i) n)) 0;
    };
    clock_size = length-tabulate (λ i. i) n ∙ sym (length-replicate n (new_frame fresh));
    clock_frames =
        λ i l. get_or-tabulate (λ i. i) n i 0 (rw (length-replicate n (new_frame fresh)) at l);
  }

  pub new_buffer_manager-Holds :
      (Stores : D → ℕ → Page → Type 0) (p : ℕ) (x : Page) → Stores d p x → Holds Stores start p x
  unfolding new_buffer_manager
  new_buffer_manager-Holds Stores p x s = on_disk refl s
