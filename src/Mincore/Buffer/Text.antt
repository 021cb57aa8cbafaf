-- ===== src/Mincore/Buffer/Text.antt =====
-- The text that shows which pages are in memory.
use mm_regression.Base.{
  ℕ, zero, suc, ◌+◌, ◌/◌, ◌-◌, ◌≤◌, ◌<◌, ◌≡◌, ◌≢◌, refl, sym, ap, ◌∙◌, arith, List, [], ◌∷◌, ◌++◌,
  Option, some, true, ◌==◌, length, set, get_elem?, tabulate, drop, take, length-tabulate,
  length-drop, map, All, All-append, length-append, length-set, Bool-cases, inl, inr, lt→ltb,
  if◌then◌else◌,
}
use mathlib.Core.List.{append_assoc}
use native.Mathlib.Nat.{suc-add, zero-add}
use mm_regression.Base.Text.{CString, codes}
use mm_regression.Abi.{ps}
use mm_regression.Mincore.Buffer.{◌>>=◌, put, put_marks, mark, c_string, idx, write_map, map_text}

-- The bytes of a text, none of which is 0.
abbrev pub IsText : CString → Type 0
IsText = All (λ b. b ≢ 0)

set-append :
    (pre : List ℕ) (i : ℕ) (b : ℕ) (rest : List ℕ)
    → set (pre ++ rest) (length pre + i) b ≡ pre ++ set rest i b
set-append [] i b rest = rw zero-add refl
set-append (x ∷ pre) i b rest = rw suc-add (ap (λ t. x ∷ t) (set-append pre i b rest))

-- Bytes that are stored behind the first part of a buffer leave that part alone.
put-append :
    (pre : List ℕ) (i : ℕ) (bs rest : List ℕ)
    → put (length pre + i) bs (pre ++ rest) ≡ (put i bs rest >>= λ t. some (pre ++ t))
unfolding put
put-append pre i [] rest = refl
put-append pre i (b ∷ bs) rest =
    let next : put (length pre + i + 1) bs (set (pre ++ rest) (length pre + i) b)
        ≡ (put (i + 1) bs (set rest i b) >>= λ t. some (pre ++ t)) =
      rw set-append (
        ap (λ j. put j bs (pre ++ set rest i b)) (omega arith)
        ∙ put-append pre (i + 1) bs (set rest i b)) in
    ground (arith, length-append pre rest, next)

-- Where there is room, a text is stored over what is there.
put-start :
    (bs rest : List ℕ)
    → length bs ≤ length rest
    → put 0 bs rest ≡ some (bs ++ drop (length bs) rest)
unfolding put
put-start [] rest h = refl
put-start (b ∷ bs) [] h = absurd (omega arith)
put-start (b ∷ bs) (r ∷ rest) h =
    rw (lt→ltb 0 (length (r ∷ rest)) (omega arith))
      (put-append (b ∷ []) 0 bs rest ∙ rw (put-start bs rest (omega arith)) refl)

c_string-text : (t : CString) (rest : List ℕ) → IsText t → c_string (t ++ (0 ∷ rest)) ≡ some t
unfolding c_string
c_string-text [] rest h = refl
c_string-text (b ∷ t) rest h = ground (arith, c_string-text t rest h.1, h.0)

put_at :
    (pre bs rest : List ℕ) (j : ℕ)
    → j ≡ length pre
    → length bs ≤ length rest
    → put j bs (pre ++ rest) ≡ some (pre ++ (bs ++ drop (length bs) rest))
put_at pre bs rest j e h =
    let here : j ≡ length pre + 0 = omega (arith, e) in
    rw here (put-append pre 0 bs rest ∙ rw (put-start bs rest h) refl)

put_room :
    (bs : List ℕ) (i : ℕ) (rest : List ℕ)
    → i + length bs ≤ length rest
    → (r : List ℕ) × (put i bs rest ≡ some r) × (length r ≡ length rest)
unfolding put
put_room [] i rest h = (rest, refl, refl)
put_room (b ∷ bs) i rest h =
    let (r, e, same) =
      put_room bs (i + 1) (set rest i b) (rw (length-set rest i b) (omega arith)) in
    (r, rw (lt→ltb i (length rest) (omega arith)) e, same ∙ length-set rest i b)

-- A text behind the first part is stored, and the first part stays.
put_behind :
    (pre bs rest : List ℕ) (i j : ℕ)
    → j ≡ length pre + i
    → i + length bs ≤ length rest
    → (r : List ℕ) × (put j bs (pre ++ rest) ≡ some (pre ++ r)) × (length r ≡ length rest)
put_behind pre bs rest i j e h =
    let (r, stored, same) = put_room bs i rest h in
    (r, rw e (put-append pre i bs rest ∙ rw stored refl), same)

drop_elem :
    (vec : List ℕ) (i : ℕ)
    → i < length vec
    → (v : ℕ) × (get_elem? vec i ≡ some v) × (drop i vec ≡ v ∷ drop (suc i) vec)
drop_elem [] i h = absurd (omega arith)
drop_elem (v ∷ vec) zero h = (v, refl, refl)
drop_elem (v ∷ vec) (suc i) h = drop_elem vec i (omega arith)

-- The loop stores the marks one after another.
put_marks-eq-put :
    (left i j : ℕ) (vec buffer : List ℕ)
    → i + left ≤ length vec
    → put_marks left i j vec buffer ≡ put (j + i) (map mark (take left (drop i vec))) buffer
unfolding put put_marks
put_marks-eq-put zero i j vec buffer h = refl
put_marks-eq-put (suc left) i j vec buffer h =
    let (v, found, at) = drop_elem vec i (omega arith) in
    let b = set buffer (j + i) (mark v) in
    let marks = map mark (take left (drop (suc i) vec)) in
    let next : put_marks left (i + 1) j vec b ≡ put (j + i + 1) marks b =
      ap (λ k. put_marks left k j vec b) (omega arith)
      ∙ put_marks-eq-put left (suc i) j vec b (omega arith)
      ∙ ap (λ k. put k marks b) (omega arith) in
    rw (found, at) (ground (arith, next))

length-marks : (n : ℕ) (vec : List ℕ) → n ≤ length vec → length (map mark (take n vec)) ≡ n
length-marks zero vec h = refl
length-marks (suc n) [] h = absurd (omega arith)
length-marks (suc n) (v ∷ vec) h = ap suc (length-marks n vec (omega arith))

marks-IsText : (n : ℕ) (vec : List ℕ) → IsText (map mark (take n vec))
marks-IsText zero vec = tt
marks-IsText (suc n) [] = tt
marks-IsText (suc n) (v ∷ vec) = (ground arith, marks-IsText n vec)

colon_IsText : (tag : CString) → IsText tag → IsText (tag ++ codes ":")
colon_IsText tag h = All-append (λ b. b ≢ 0) tag (codes ":") h (omega arith)

go_on :
    {A B : Type 0} (m : Option A) (f : A → Option B) (a : A) (r : Option B)
    → m ≡ some a
    → f a ≡ r
    → (m >>= f) ≡ r
go_on m f a r e k = rw e k

-- A buffer that has room for the marks and for a tag of 8 bytes.
module _ (tag : CString) (text : IsText tag) (n : ℕ) (vec buffer : List ℕ) (known : n ≤ length vec)
    (room : 256 + n ≤ length buffer) where
  abbrev marks : CString
  marks = map mark (take n vec)

  abbrev head : CString
  head = tag ++ codes ":"

  abbrev rest : List ℕ
  rest = drop (length (tag ++ (codes ":" ++ (0 ∷ [])))) buffer

  length-start : length (tag ++ (codes ":" ++ (0 ∷ []))) ≡ length tag + 2
  length-start = length-append tag _

  length-rest : length rest ≡ length buffer - (length tag + 2)
  length-rest =
      length-drop (length (tag ++ (codes ":" ++ (0 ∷ [])))) buffer
      ∙ ap (λ k. length buffer - k) length-start

  started :
      length tag ≤ 8
      → put 0 (tag ++ (codes ":" ++ (0 ∷ []))) buffer
        ≡ some ((tag ++ (codes ":" ++ (0 ∷ []))) ++ rest)
  started h = put-start _ buffer (omega (arith, length-start))

  marked : (b : List ℕ) → put_marks n 0 idx vec b ≡ put idx marks b
  marked b = put_marks-eq-put n 0 idx vec b (omega arith)

  write_full : length tag ≡ 8 → write_map tag n vec buffer ≡ some (head ++ (marks ++ codes "\n"))
  unfolding write_map
  write_full eight =
      let many = length-marks n vec known in
      let more = length-rest in
      let left : List ℕ = drop (length marks) (0 ∷ rest) in
      let enough : length left ≡ suc (length rest) - length marks =
        length-drop (length marks) (0 ∷ rest) in
      let first : put_marks n 0 idx vec ((tag ++ (codes ":" ++ (0 ∷ []))) ++ rest)
          ≡ some ((head ++ marks) ++ left) =
        marked _
        ∙ ap (put idx marks) (simp append_assoc)
        ∙ put_at head marks (0 ∷ rest) idx (omega (arith, length-append tag (codes ":")))
            (omega arith)
        ∙ ap some (sym (append_assoc head marks left)) in
      let last : put (idx + n) (codes "\n" ++ (0 ∷ [])) ((head ++ marks) ++ left)
          ≡ some ((head ++ (marks ++ codes "\n")) ++ (0 ∷ drop 2 left)) =
        put_at (head ++ marks) (codes "\n" ++ (0 ∷ [])) left (idx + n)
          (omega (arith, length-append tag (codes ":"), length-append head marks)) (omega arith)
        ∙ ap some (simp append_assoc) in
      let whole : IsText (head ++ (marks ++ codes "\n")) =
        All-append (λ b. b ≢ 0) head _ (colon_IsText tag text)
          (All-append (λ b. b ≢ 0) marks _ (marks-IsText n vec) (omega arith)) in
      go_on _ _ _ _ (started (omega arith)) (
        go_on _ _ _ _ first
          (go_on _ _ _ _ last (c_string-text (head ++ (marks ++ codes "\n")) (drop 2 left) whole)))

  cut_end : (r : List ℕ) → c_string ((tag ++ (codes ":" ++ (0 ∷ []))) ++ r) ≡ some head
  cut_end r =
      let regroup : (tag ++ (codes ":" ++ (0 ∷ []))) ++ r ≡ head ++ (0 ∷ r) = simp append_assoc in
      ap c_string regroup ∙ c_string-text head r (colon_IsText tag text)

  write_cut : length tag < 8 → write_map tag n vec buffer ≡ some head
  unfolding write_map
  write_cut short =
      let many = length-marks n vec known in
      let more = length-rest in
      let pre = tag ++ (codes ":" ++ (0 ∷ [])) in
      let (r, first, long) =
        put_behind pre marks rest (7 - length tag) idx (omega (arith, length-start))
          (omega arith) in
      let (r', last, long') =
        put_behind pre (codes "\n" ++ (0 ∷ [])) r (7 - length tag + n) (idx + n)
          (omega (arith, length-start)) (omega arith) in
      rw (started (omega arith), marked, first, last) (cut_end r')

-- The bytes of a line: the tag, a colon, and for a tag of 8 bytes a mark for each page and the end
-- of the line.
unfoldable pub line_of : (tag : CString) → (pages : ℕ) → (vec : List ℕ) → CString
line_of tag pages vec =
    tag ++ (codes ":" ++ (if length tag == 8 then map mark (take pages vec) ++ codes "\n" else []))

pub map_text-eq-line_of :
    (junk : ℕ → ℕ) (tag : CString) (size : ℕ) (vec : List ℕ)
    → IsText tag
    → length tag ≤ 8
    → size / ps ≤ length vec
    → map_text junk tag size vec ≡ some (line_of tag (size / ps) vec)
unfolding map_text line_of
map_text-eq-line_of junk tag size vec text fits known =
    let buffer : List ℕ = tabulate (256 + size / ps) 0 junk in
    let room : 256 + size / ps ≤ length buffer =
      omega (arith, length-tabulate (256 + size / ps) 0 junk) in
    elim (Bool-cases (length tag == 8)) [
      | inl eight ↦ rw eight (
          write_full tag text (size / ps) vec buffer known room (ground arith)
          ∙ ap some (append_assoc tag (codes ":") _))
      | inr other ↦ rw other (write_cut tag text (size / ps) vec buffer known room (ground arith))
    ]

pub length-line_of :
    (tag : CString) (pages : ℕ) (vec : List ℕ)
    → length tag ≡ 8
    → pages ≤ length vec
    → length (line_of tag pages vec) ≡ pages + 10
unfolding line_of
length-line_of tag pages vec eight known =
    let test : (length tag == 8) ≡ true = ground arith in
    rw test (
      omega (
        arith,
        length-append tag (codes ":" ++ (map mark (take pages vec) ++ codes "\n")),
        length-append (map mark (take pages vec)) (codes "\n"),
        length-marks pages vec known,
      ))
