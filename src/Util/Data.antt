-- ===== src/Util/Data.antt =====
-- include/util/data.h: values appended to a byte buffer and read back from a span of bytes. An
-- integer is its bytes in memory order (little-endian), an array its bytes, a string its 32-bit
-- length and its bytes. A buffer is a list of bytes, a string the list of its characters' bytes.
-- A read past the end of the span, which is undefined in the source, has no result.
use cpp_relational_db.Base.{
  ℕ, zero, suc, ◌+◌, ◌*◌, ◌/◌, ◌%◌, ◌^◌, ◌<◌, ◌≡◌, refl, ap, List, [], ◌∷◌, ◌++◌, Option, none,
  some, arith, leb, le→leb, if◌then◌else◌, ◌>>=◌, length, take, drop, append_assoc, append-nil,
  length-append, subst, Sits, Sits-append, Sits-end, take-Sits, length-Sits,
}

-- The `w` bytes of an unsigned integer, and the integer that bytes make.
abbrev pub le_bytes : ℕ → ℕ → List ℕ
le_bytes zero v = []
le_bytes (suc w) v = v % 256 ∷ le_bytes w (v / 256)

abbrev pub le_value : List ℕ → ℕ
le_value [] = 0
le_value (b ∷ bs) = b + 256 * le_value bs

-- `WriteData<T>` on an integer of `w` bytes.
unfoldable pub write_uint : ℕ → List ℕ → ℕ → List ℕ
write_uint w buf v = buf ++ le_bytes w v

-- `WriteData<T>` on an array of bytes.
unfoldable pub write_array : List ℕ → List ℕ → List ℕ
write_array buf v = buf ++ v

unfoldable pub write_string : List ℕ → List ℕ → List ℕ
write_string buf v = write_uint 4 buf (length v % 2 ^ 32) ++ v

-- `n` bytes copied from the span at `off`, with the offset after them.
unfoldable pub read_array : ℕ → List ℕ → ℕ → Option (List ℕ × ℕ)
read_array n buf off =
    if leb (off + n) (length buf) then some (take n (drop off buf), off + n) else none

unfoldable pub read_uint : ℕ → List ℕ → ℕ → Option (ℕ × ℕ)
read_uint w buf off = do r ← read_array w buf off; some (le_value r.0, r.1)

unfoldable pub read_string : List ℕ → ℕ → Option (List ℕ × ℕ)
read_string buf off = do len ← read_uint 4 buf off; read_array len.0 buf len.1

pub length-le_bytes : (w v : ℕ) → length (le_bytes w v) ≡ w
length-le_bytes zero v = refl
length-le_bytes (suc w) v = ap suc (length-le_bytes w (v / 256))

pub le_value-le_bytes2 : (v : ℕ) → v < 2 ^ 16 → le_value (le_bytes 2 v) ≡ v
le_value-le_bytes2 v h = omega arith

pub le_value-le_bytes4 : (v : ℕ) → v < 2 ^ 32 → le_value (le_bytes 4 v) ≡ v
le_value-le_bytes4 v h = omega arith

-- The bytes of a string with its length.
abbrev pub string_bytes : List ℕ → List ℕ
string_bytes v = le_bytes 4 (length v % 2 ^ 32) ++ v

pub read_array-Sits :
    (buf : List ℕ) (off : ℕ) (bs : List ℕ)
    → Sits buf off bs
    → read_array (length bs) buf off ≡ some (bs, off + length bs)
unfolding read_array
read_array-Sits buf off bs s =
    rw (le→leb (off + length bs) (length buf) (length-Sits buf off bs s), take-Sits buf off bs s)

pub read_array_lem :
    (n : ℕ) (buf : List ℕ) (off : ℕ) (bs : List ℕ)
    → length bs ≡ n
    → Sits buf off bs
    → read_array n buf off ≡ some (bs, off + n)
read_array_lem n buf off bs l s =
    subst (λ k. read_array k buf off ≡ some (bs, off + k)) l (read_array-Sits buf off bs s)

pub read_uint-Sits :
    (w : ℕ) (buf : List ℕ) (off v : ℕ)
    → Sits buf off (le_bytes w v)
    → read_uint w buf off ≡ some (le_value (le_bytes w v), off + w)
unfolding read_uint
read_uint-Sits w buf off v s = rw (read_array_lem w buf off (le_bytes w v) (length-le_bytes w v) s)

pub Sits-front :
    (buf : List ℕ) (off : ℕ) (xs ys : List ℕ) → Sits buf off (xs ++ ys) → Sits buf off xs
Sits-front buf off xs ys (pre, post, e, l) = (pre, ys ++ post, rw (e, append_assoc xs ys post), l)

pub Sits-back :
    (buf : List ℕ) (off : ℕ) (xs ys : List ℕ)
    → Sits buf off (xs ++ ys)
    → Sits buf (off + length xs) ys
Sits-back buf off xs ys (pre, post, e, l) = (
  pre ++ xs,
  post,
  rw (e, append_assoc xs ys post, append_assoc pre xs (ys ++ post)),
  omega (arith, l, length-append pre xs),
)

pub read_string-Sits :
    (buf : List ℕ) (off : ℕ) (v : List ℕ)
    → length v < 2 ^ 32
    → Sits buf off (string_bytes v)
    → read_string buf off ≡ some (v, off + (4 + length v))
unfolding read_string
read_string-Sits buf off v h s =
    let n = length v % 2 ^ 32 in
    let a = read_uint-Sits 4 buf off n (Sits-front buf off (le_bytes 4 n) v s) in
    let eq : le_value (le_bytes 4 n) ≡ length v = omega arith in
    let b = read_array-Sits buf (off + 4) v (Sits-back buf off (le_bytes 4 n) v s) in
    let at : off + 4 + length v ≡ off + (4 + length v) = omega arith in rw (a, eq, b, at)

-- Each writer extends the buffer by the bytes of its value.
pub write_uint_lem : (w : ℕ) (buf : List ℕ) (v : ℕ) → write_uint w buf v ≡ buf ++ le_bytes w v
unfolding write_uint
write_uint_lem w buf v = refl

pub write_string_lem : (buf v : List ℕ) → write_string buf v ≡ buf ++ string_bytes v
unfolding write_string write_uint
write_string_lem buf v = append_assoc buf (le_bytes 4 (length v % 2 ^ 32)) v

pub length-string_bytes : (v : List ℕ) → length (string_bytes v) ≡ 4 + length v
length-string_bytes v = omega arith

-- Four values written one after another, each at the offset where the one before it ends.
pub Sits-four :
    (x y z w : List ℕ) (i j k : ℕ)
    → length x ≡ i
    → i + length y ≡ j
    → j + length z ≡ k
    → Sits (((x ++ y) ++ z) ++ w) 0 x
      × Sits (((x ++ y) ++ z) ++ w) i y
      × Sits (((x ++ y) ++ z) ++ w) j z
      × Sits (((x ++ y) ++ z) ++ w) k w
Sits-four x y z w i j k a b c =
    let buf = ((x ++ y) ++ z) ++ w in
    let at_j : length (x ++ y) ≡ j = omega (arith, length-append x y) in
    let at_k : length ((x ++ y) ++ z) ≡ k = omega (arith, length-append (x ++ y) z) in
    let grow : (n : ℕ) (bs : List ℕ) → Sits (x ++ y) n bs → Sits buf n bs =
      λ n bs s. Sits-append ((x ++ y) ++ z) w n bs (Sits-append (x ++ y) z n bs s) in
    (
      grow 0 x (Sits-append x y 0 x (Sits-end [] x)),
      subst (λ n. Sits buf n y) a (grow (length x) y (Sits-end x y)),
      subst (λ n. Sits buf n z) at_j
          (Sits-append ((x ++ y) ++ z) w (length (x ++ y)) z (Sits-end (x ++ y) z)),
      subst (λ n. Sits buf n w) at_k (Sits-end ((x ++ y) ++ z) w),
    )

pub Sits-three :
    (x y z : List ℕ) (i j : ℕ)
    → length x ≡ i
    → i + length y ≡ j
    → Sits ((x ++ y) ++ z) 0 x × Sits ((x ++ y) ++ z) i y × Sits ((x ++ y) ++ z) j z
Sits-three x y z i j a b =
    let s = Sits-four x y z [] i j (j + length z) a b refl in
    let same = append-nil ((x ++ y) ++ z) in
    (
      subst (λ buf. Sits buf 0 x) same s.0,
      subst (λ buf. Sits buf i y) same s.1,
      subst (λ buf. Sits buf j z) same s.2,
    )
