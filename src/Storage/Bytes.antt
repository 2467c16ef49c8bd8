-- ===== src/Storage/Bytes.antt =====
-- Raw page memory, as the storage layer reads it through `reinterpret_cast` and writes it by
-- `memcpy`: a byte at each address, little-endian 16-bit fields (the layout of the x86-64 and
-- AArch64 targets), and include/config/config.h.
use cpp_relational_db.Base.{
  ap, ℕ, ◌+◌, ◌-◌, ◌*◌, ◌/◌, ◌%◌, ◌^◌, ◌≤◌, ◌<◌, ◌≡◌, ◌∙◌, ◌⊎◌, List, [], ◌∷◌, ◌&&◌, arith, ltb,
  leb, le→leb, lt→ltb, if◌then◌else◌, length, get_or, tabulate, tabulate-congr, tabulate-get_or,
}

-- `config::PAGE_SIZE`
abbrev pub page_size : ℕ
page_size = 8192

abbrev pub Page : Type 0
Page = ℕ → ℕ

-- The bytes of a page that a frame or the disk keeps are those below `page_size`.
abbrev pub SameBytes : Page → Page → Type 0
SameBytes x y = (i : ℕ) → i < page_size → x i ≡ y i

-- `memcpy(m + a, bs, length bs)`
unfoldable pub copy_in : Page → ℕ → List ℕ → Page
copy_in m a bs i = if leb a i && ltb i (a + length bs) then get_or bs (i - a) 0 else m i

-- The `n` bytes from address `a`.
unfoldable pub read_bytes : Page → ℕ → ℕ → List ℕ
read_bytes m a n = tabulate (λ i. m (a + i)) n

unfoldable pub read_u16 : Page → ℕ → ℕ
read_u16 m a = m a + 256 * m (a + 1)

abbrev pub u16_bytes : ℕ → List ℕ
u16_bytes v = v % 256 ∷ (v / 256 % 256) ∷ []

unfoldable pub write_u16 : Page → ℕ → ℕ → Page
unfolding copy_in
write_u16 m a v = copy_in m a (u16_bytes v)

pub copy_in_out :
    (m : Page) (a : ℕ) (bs : List ℕ) (i : ℕ)
    → (i < a) ⊎ (a + length bs ≤ i)
    → copy_in m a bs i ≡ m i
unfolding copy_in
copy_in_out m a bs i h = ground arith

pub copy_in_at :
    (m : Page) (a : ℕ) (bs : List ℕ) (i : ℕ)
    → i < length bs
    → copy_in m a bs (a + i) ≡ get_or bs i 0
unfolding copy_in
copy_in_at m a bs i h =
    let same : a + i - a ≡ i = omega arith in
    rw (le→leb a (a + i) (omega arith), lt→ltb (a + i) (a + length bs) (omega arith), same)

pub read_bytes-congr :
    (x y : Page) (a n : ℕ)
    → ((i : ℕ) → a ≤ i → i < a + n → x i ≡ y i)
    → read_bytes x a n ≡ read_bytes y a n
unfolding read_bytes
read_bytes-congr x y a n h =
    tabulate-congr (λ i. x (a + i)) (λ i. y (a + i)) n
      (λ i l. h (a + i) (omega arith) (omega arith))

pub read_bytes-copy_in_self :
    (m : Page) (a : ℕ) (bs : List ℕ) → read_bytes (copy_in m a bs) a (length bs) ≡ bs
unfolding read_bytes
read_bytes-copy_in_self m a bs =
    tabulate-congr (λ i. copy_in m a bs (a + i)) (λ i. get_or bs i 0) (length bs)
      (copy_in_at m a bs)
    ∙ tabulate-get_or bs 0

pub read_u16-congr :
    (x y : Page) (a : ℕ) → x a ≡ y a → x (a + 1) ≡ y (a + 1) → read_u16 x a ≡ read_u16 y a
unfolding read_u16
read_u16-congr x y a p q = omega arith

pub read_u16-copy_in_out :
    (m : Page) (a b : ℕ) (bs : List ℕ)
    → (b + 2 ≤ a) ⊎ (a + length bs ≤ b)
    → read_u16 (copy_in m a bs) b ≡ read_u16 m b
unfolding read_u16 copy_in
read_u16-copy_in_out m a b bs h = ground arith

pub read_u16-write_u16_self : (m : Page) (a v : ℕ) → read_u16 (write_u16 m a v) a ≡ v % 2 ^ 16
unfolding read_u16 write_u16
read_u16-write_u16_self m a v = ground arith

pub read_u16-write_u16_out :
    (m : Page) (a b v : ℕ) → (b + 2 ≤ a) ⊎ (a + 2 ≤ b) → read_u16 (write_u16 m a v) b ≡ read_u16 m b
unfolding write_u16
read_u16-write_u16_out m a b v h = read_u16-copy_in_out m a b (u16_bytes v) h

pub write_u16_out : (m : Page) (a v i : ℕ) → (i < a) ⊎ (a + 2 ≤ i) → write_u16 m a v i ≡ m i
unfolding write_u16
write_u16_out m a v i h = copy_in_out m a (u16_bytes v) i h

-- A 32-bit field.
unfoldable pub read_u32 : Page → ℕ → ℕ
read_u32 m a = m a + 256 * m (a + 1) + 65536 * m (a + 2) + 16777216 * m (a + 3)

abbrev pub u32_bytes : ℕ → List ℕ
u32_bytes v = v % 256 ∷ (v / 256 % 256) ∷ (v / 65536 % 256) ∷ (v / 16777216 % 256) ∷ []

unfoldable pub write_u32 : Page → ℕ → ℕ → Page
unfolding copy_in
write_u32 m a v = copy_in m a (u32_bytes v)

pub read_u32-write_u32_self : (m : Page) (a v : ℕ) → read_u32 (write_u32 m a v) a ≡ v % 2 ^ 32
unfolding read_u32 write_u32
read_u32-write_u32_self m a v =
    let first : copy_in m a (u32_bytes v) a ≡ v % 256 =
      ap (copy_in m a (u32_bytes v)) (omega arith) ∙ copy_in_at m a (u32_bytes v) 0 (omega arith) in
    omega (
      arith,
      first,
      copy_in_at m a (u32_bytes v) 1 (omega arith),
      copy_in_at m a (u32_bytes v) 2 (omega arith),
      copy_in_at m a (u32_bytes v) 3 (omega arith),
    )

pub write_u32_out : (m : Page) (a v i : ℕ) → (i < a) ⊎ (a + 4 ≤ i) → write_u32 m a v i ≡ m i
unfolding write_u32
write_u32_out m a v i h = copy_in_out m a (u32_bytes v) i h

pub read_u32-congr :
    (x y : Page) (a : ℕ) → ((i : ℕ) → a ≤ i → i < a + 4 → x i ≡ y i) → read_u32 x a ≡ read_u32 y a
unfolding read_u32
read_u32-congr x y a h = omega (
  arith,
  h a (omega arith) (omega arith),
  h (a + 1) (omega arith) (omega arith),
  h (a + 2) (omega arith) (omega arith),
  h (a + 3) (omega arith) (omega arith),
)
