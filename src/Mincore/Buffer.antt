-- ===== src/Mincore/Buffer.antt =====
-- The text that `show_mincore_map` builds in a buffer of the heap.
pub mod Text
pub mod Tests
use mm_regression.Base.{
  ℕ, zero, suc, ◌+◌, ◌/◌, List, [], ◌∷◌, ◌++◌, Option, none, some, ltb, ◌==◌, length, set,
  get_elem?, tabulate, if◌then◌else◌,
}
use mm_regression.Base.Text.{CString, codes}
use mm_regression.Abi.{ps}

infixl 5 ◌>>=◌
abbrev pub ◌>>=◌ : {A B : Type 0} → Option A → (A → Option B) → Option B
none >>= f = none
some a >>= f = f a

-- Bytes stored from the index `i` on; `none` beyond the end of the buffer.
pub put : (i : ℕ) → List ℕ → (buffer : List ℕ) → Option (List ℕ)
put i [] buffer = some buffer
put i (b ∷ bs) buffer =
    let rest = put (i + 1) bs (set buffer i b) in if ltb i (length buffer) then rest else none

-- `vec[i] ? '1' : '0'`
abbrev pub mark : ℕ → ℕ
mark v = if v == 0 then b'0' else b'1'

-- `for (...; i < length/PS; i++) p[idx+i] = vec[i] ? '1' : '0'` for `left` rounds from `i` on
pub put_marks : (left i idx : ℕ) → (vec buffer : List ℕ) → Option (List ℕ)
unfolding put
put_marks zero i idx vec buffer = some buffer
put_marks (suc left) i idx vec buffer = do
  v ← get_elem? vec i
  buffer' ← put (idx + i) (mark v ∷ []) buffer
  put_marks left (i + 1) idx vec buffer'

-- The C string at the head of a buffer; `none` where no 0 ends it.
pub c_string : List ℕ → Option CString
c_string [] = none
c_string (b ∷ bs) =
    if b == 0 then some [] else elim (c_string bs) [ none ↦ none | some s ↦ some (b ∷ s) ]

-- `sizeof(tag) + 1`: `tag` is a pointer.
abbrev pub idx : ℕ
idx = 8 + 1

-- The `sprintf`, the loop and the last two bytes, in a buffer for `pages` pages.
pub write_map : (tag : CString) → (pages : ℕ) → (vec buffer : List ℕ) → Option CString
unfolding put put_marks c_string
write_map tag pages vec buffer = do
  p ← put 0 (tag ++ (codes ":" ++ (0 ∷ []))) buffer
  p' ← put_marks pages 0 idx vec p
  p'' ← put (idx + pages) (codes "\n" ++ (0 ∷ [])) p'
  c_string p''

-- `junk` is what `malloc` leaves in the buffer.
pub map_text : (junk : ℕ → ℕ) → (tag : CString) → (size : ℕ) → (vec : List ℕ) → Option CString
unfolding write_map
map_text junk tag size vec = write_map tag (size / ps) vec (tabulate (256 + size / ps) 0 junk)
