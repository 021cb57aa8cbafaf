-- ===== src/Hugepage/Mounts/Scan.antt =====
-- The mount point of hugetlbfs is found.
use mm_regression.Base.{
  ℕ, ◌<◌, ◌≡◌, refl, ap, ◌∙◌, arith, List, [], ◌∷◌, ◌++◌, some, Bool, true, false, ltb, ◌==◌,
  length, All,
}
use mm_regression.Base.Text.{CString, codes}
use mm_regression.Libc.{is_space}
use mm_regression.Libc.Scan.{IsSpaceless}
use mm_regression.Machine.{ok}
use mm_regression.Hugepage.{HugeState}
use mm_regression.Hugepage.Mounts.{
  Scanned, skip_blanks, span_until, after_text, options_of, scan_options, scan_type, dir_of,
  device_of, scan_mount, after_scan, first_mount, hugetlbfs_root,
}

-- A line of /proc/mounts, with the two numbers at its end.
abbrev pub print_mount : (device dir options : CString) → CString
print_mount device dir options =
    device ++ (b' ' ∷ dir ++ (codes " hugetlbfs " ++ (options ++ codes " 0 0\n")))

module _ (stops : ℕ → Bool) where
  span_until-append :
      (w : CString) (c : ℕ) (r : CString)
      → All (λ d. stops d ≡ false) w
      → stops c ≡ true
      → span_until stops (w ++ (c ∷ r)) ≡ (w, c ∷ r)
  unfolding span_until
  span_until-append [] c r h e = rw e refl
  span_until-append (d ∷ w) c r h e = rw (h.0, span_until-append w c r h.1 e) refl

skip_blanks_none : (c : ℕ) (s : CString) → is_space c ≡ false → skip_blanks (c ∷ s) ≡ c ∷ s
unfolding skip_blanks
skip_blanks_none c s h = rw h refl

-- A blank, and the word after it.
span_blank_word :
    (d : ℕ) (w : CString) (c : ℕ) (r : CString)
    → IsSpaceless (d ∷ w)
    → is_space c ≡ true
    → span_until is_space (skip_blanks (b' ' ∷ (d ∷ w) ++ (c ∷ r))) ≡ (d ∷ w, c ∷ r)
unfolding skip_blanks
span_blank_word d w c r h e =
    let skip : skip_blanks (b' ' ∷ (d ∷ w) ++ (c ∷ r)) ≡ d ∷ w ++ (c ∷ r) =
      skip_blanks_none d (w ++ (c ∷ r)) h.0 in
    ap (span_until is_space) skip ∙ span_until-append is_space (d ∷ w) c r h e

-- What the three conversions read has its place in the buffers; the words have no white space, the
-- options no blank.
pub record IsMount (device dir options : CString) : Type 0 where
  pub device_word : IsSpaceless device
  pub dir_word : IsSpaceless dir
  pub options_word : All (λ o. (o == 32) ≡ false) options
  pub device_room : length device < 100
  pub dir_room : length dir < 256
  pub options_room : length options < 100

scan_options_lem :
    (dir : CString) (c : ℕ) (options : CString)
    → All (λ d. (d == 32) ≡ false) (c ∷ options)
    → length (c ∷ options) < 100
    → scan_options dir ((c ∷ options) ++ codes " 0 0\n") ≡ Scanned.full dir
unfolding scan_options options_of
scan_options_lem dir c options h room =
    let fits : ltb (length (c ∷ options)) 100 ≡ true = ground arith in
    ap (options_of dir) (span_until-append (λ d. d == 32) (c ∷ options) 32 (codes "0 0\n") h refl)
    ∙ rw fits refl

scan_type_lem :
    (dir : CString) (c : ℕ) (options : CString)
    → length dir < 256
    → is_space c ≡ false
    → All (λ d. (d == 32) ≡ false) (c ∷ options)
    → length (c ∷ options) < 100
    → scan_type dir (codes " hugetlbfs " ++ ((c ∷ options) ++ codes " 0 0\n")) ≡ Scanned.full dir
unfolding scan_type after_text skip_blanks
scan_type_lem dir c options dir_room first h room =
    let fits : ltb (length dir) 256 ≡ true = ground arith in
    rw (fits, first) (scan_options_lem dir c options h room)

scan_mount-print_mount :
    (e : ℕ) (device : CString) (d : ℕ) (dir : CString) (c : ℕ) (options : CString)
    → IsMount (e ∷ device) (d ∷ dir) (c ∷ options)
    → is_space c ≡ false
    → scan_mount (print_mount (e ∷ device) (d ∷ dir) (c ∷ options)) ≡ Scanned.full (d ∷ dir)
unfolding scan_mount device_of dir_of
scan_mount-print_mount e device d dir c options m first =
    let fits : ltb (length (e ∷ device)) 100 ≡ true = ground (arith, m.device_room) in
    let tail : CString = codes "hugetlbfs " ++ ((c ∷ options) ++ codes " 0 0\n") in
    let line : CString = print_mount (e ∷ device) (d ∷ dir) (c ∷ options) in
    let skip : skip_blanks line ≡ line = skip_blanks_none e _ m.device_word.0 in
    ap (λ t. device_of (span_until is_space t)) skip
    ∙ (ap device_of
          (span_until-append is_space (e ∷ device) 32 ((d ∷ dir) ++ (32 ∷ tail)) m.device_word refl)
        ∙ rw fits (
            ap dir_of (span_blank_word d dir 32 tail m.dir_word refl)
            ∙ scan_type_lem (d ∷ dir) c options m.dir_room first m.options_word m.options_room))

-- After lines that `sscanf` does not read in full, a line of /proc/mounts for a hugetlbfs gives
-- `hugetlbfs_root` the directory that is printed in it, where the device, the directory and the
-- options are not empty and fit their buffers, and what follows the line does not matter.
pub hugetlbfs_root-print_mount :
    (before after : List CString) (e : ℕ) (device : CString) (d : ℕ) (dir : CString) (c : ℕ)
    (options : CString) (s : HugeState)
    → All (λ line. scan_mount line ≡ Scanned.short) before
    → IsMount (e ∷ device) (d ∷ dir) (c ∷ options)
    → is_space c ≡ false
    → hugetlbfs_root (some (before ++ (print_mount (e ∷ device) (d ∷ dir) (c ∷ options) ∷ after))) s
      ≡ (ok (some (d ∷ dir)), s)
unfolding hugetlbfs_root first_mount
hugetlbfs_root-print_mount [] after e device d dir c options s skipped m first =
    let here = scan_mount-print_mount e device d dir c options m first in
    ap (λ x. after_scan (first_mount after) x s) here
hugetlbfs_root-print_mount (line ∷ before) after e device d dir c options s skipped m first =
    ap
      (λ x.
        after_scan
          (first_mount (before ++ (print_mount (e ∷ device) (d ∷ dir) (c ∷ options) ∷ after))) x s)
      skipped.0
    ∙ hugetlbfs_root-print_mount before after e device d dir c options s skipped.1 m first
