-- ===== src/Storage/FreeList.antt =====
-- include/storage/buffer_manager/free_list.h and src/storage/buffer_manager/free_list.cpp: a stack of
-- unused frames. A `Frame*` is the frame's index in the pool, and the head of the list is the back
-- of the vector.
use cpp_relational_db.Base.{ℕ, Option, none, some, Bool, true, false, List, [], ◌∷◌, length}

abbrev pub FreeList : Type 0
FreeList = List ℕ

unfoldable pub add : FreeList → ℕ → FreeList
add l frame = frame ∷ l

unfoldable pub empty : FreeList → Bool
empty [] = true
empty (f ∷ r) = false

-- `none` is the null pointer.
unfoldable pub get : FreeList → FreeList × Option ℕ
get [] = ([], none)
get (f ∷ r) = (r, some f)

unfoldable pub size : FreeList → ℕ
size l = length l
