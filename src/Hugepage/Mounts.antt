-- ===== src/Hugepage/Mounts.antt =====
-- lib/hugepage.h: where hugetlbfs is mounted, and the size of a huge page. The lines of
-- /proc/mounts and the names in sysfs are parameters, `none` where they cannot be opened.
pub mod Scan
use mm_regression.Base.{
  ℕ, zero, suc, ◌+◌, ◌*◌, ◌^◌, List, [], ◌∷◌, ◌++◌, Option, none, some, Bool, true, false, ltb,
  ◌==◌, ◌&&◌, length, if◌then◌else◌,
}
use mm_regression.Base.Int.{is_minus_one}
use mm_regression.Base.Text.{CString, codes}
use mm_regression.Libc.{is_space, digit, number}
use mm_regression.Machine.{
  Call, Kernel, Run, exit, fault, pure, stop, ◌>>=◌, ◌>>◌, puts, into_buffer,
}
use mm_regression.Hugepage.{HugeState, H, call}

-- White space in the format of `sscanf`.
pub skip_blanks : CString → CString
skip_blanks [] = []
skip_blanks (c ∷ s) = let rest = skip_blanks s in if is_space c then rest else c ∷ s

-- The text before the first character of a kind, and the rest from it on.
pub span_until : (ℕ → Bool) → CString → CString × CString
span_until stops [] = ([], [])
span_until stops (c ∷ s) =
    let (w, r) = span_until stops s in if stops c then ([], c ∷ s) else (c ∷ w, r)

-- What follows a text that must stand at the beginning.
pub after_text : (text s : CString) → Option CString
after_text [] s = some s
after_text (c ∷ text) [] = none
after_text (c ∷ text) (d ∷ s) = let rest = after_text text s in if c == d then rest else none

-- What `sscanf(line, "%s %s hugetlbfs %[^ ]", dummy1, dir, dummy2)` does: `full` reads all three,
-- `short` fewer, and `overflow` overruns a buffer.
pub data Scanned : Type 0 where
  full : (dir : CString) → Scanned
  short overflow : Scanned

options_of : (dir : CString) → CString × CString → Scanned
options_of dir ([], r) = short
options_of dir (c ∷ w, r) = if ltb (length (c ∷ w)) 100 then full dir else overflow

scan_options : (dir s : CString) → Scanned
unfolding span_until options_of
scan_options dir s = options_of dir (span_until (λ c. c == 32) s)

scan_type : (dir s : CString) → Scanned
unfolding after_text skip_blanks scan_options
scan_type dir s =
    if ltb (length dir) 256
    then elim (after_text (codes "hugetlbfs") (skip_blanks s)) [
      | none ↦ short
      | some rest ↦ scan_options dir (skip_blanks rest)
    ]
    else overflow

dir_of : CString × CString → Scanned
unfolding scan_type
dir_of ([], r) = short
dir_of (c ∷ w, r) = scan_type (c ∷ w) r

device_of : CString × CString → Scanned
unfolding span_until skip_blanks dir_of
device_of ([], r) = short
device_of (c ∷ w, r) =
    if ltb (length (c ∷ w)) 100 then dir_of (span_until is_space (skip_blanks r)) else overflow

unfoldable pub scan_mount : (line : CString) → Scanned
unfolding span_until skip_blanks device_of
scan_mount line = device_of (span_until is_space (skip_blanks line))

-- A line that is read in full ends the search.
after_scan : (rest : H (Option CString)) → Scanned → H (Option CString)
after_scan rest (full dir) = pure (some dir)
after_scan rest short = rest
after_scan rest overflow = stop fault

-- The directory of the first line that is read in full; `none` where there is none.
first_mount : List CString → H (Option CString)
unfolding after_scan
first_mount [] = pure none
first_mount (line ∷ lines) = let rest = first_mount lines in after_scan rest (scan_mount line)

pub hugetlbfs_root : (mounts : Option (List CString)) → H (Option CString)
unfolding first_mount
hugetlbfs_root none = stop exit
hugetlbfs_root (some lines) = first_mount lines

module _ (kernel : Kernel) where
  build_path : (basename : CString) → Option CString → H (Unit {0})
  build_path basename none = stop exit
  build_path basename (some dir) = do
    found ← call kernel (Call.access dir)
    if is_minus_one found
        then stop exit
        else (do path ← into_buffer 256 (dir ++ basename); puts (λ s. record s { filepath = path }))

  pub get_hugetlbfs_filepath :
      (mounts : Option (List CString)) → (basename : CString) → H (Unit {0})
  unfolding hugetlbfs_root build_path
  get_hugetlbfs_filepath mounts basename = do dir ← hugetlbfs_root mounts; build_path basename dir

-- `sscanf(name, "hugepages-%dkB", &hpagesize)`: the number, where there is one. A sign is left out.
pub scan_size : (name : CString) → Option ℕ
unfolding after_text skip_blanks
scan_size name = elim (after_text (codes "hugepages-") name) [
  | none ↦ none
  | some rest ↦ elim (skip_blanks rest) [
    | [] ↦ none
    | c ∷ s ↦ if ltb (digit c) 10 then some (number 10 0 (c ∷ s)) else none
  ]
]

-- A size that does not fit an `int` is undefined.
pub gethugepagesize : (dir : Option (List CString)) → H ℕ
unfolding scan_size
gethugepagesize none = stop exit
gethugepagesize (some []) = pure 0
gethugepagesize (some (name ∷ names)) = elim (scan_size name) [
  | none ↦ gethugepagesize (some names)
  | some kilobytes ↦ if ltb (kilobytes * 1024) (2 ^ 31) then pure (kilobytes * 1024) else stop fault
]
