-- ===== src/Hugepage/Tests.antt =====
-- Runs on huge pages.
use mm_regression.Base.{
  ℕ, ◌+◌, ◌*◌, ◌<◌, ◌≡◌, ◌≢◌, refl, arith, [], some, ◌∷◌, true, ◌==◌, if◌then◌else◌,
}
use mm_regression.Base.Int.{pos}
use mm_regression.Base.Text.{CString, codes}
use mm_regression.Machine.{Call, Kernel, ok, ◌>>=◌}
use mm_regression.Hugepage.{
  Memory, HugeState, expected, write_pages, write_hugepage, read_hugepage, alloc_hugepage,
  free_hugepage,
}
use mm_regression.Hugepage.Pattern.{read_hugepage-write_hugepage}
use mm_regression.Hugepage.Mounts.{Scanned, scan_mount, hugetlbfs_root}
use mm_regression.Hugepage.Mounts.Scan.{IsMount, hugetlbfs_root-print_mount}
use mm_regression.Hugepage.Alloc.{segments, free_hugepage-alloc_hugepage, alloc_hugepage-ne_zero}
use mm_regression.Machine.Post.{Post}

abbrev blank : Memory
blank = λ b. 0

-- Two pages, the first of which is to be avoided.
read_hugepage-write_hugepage_example :
    (written : Memory) × (write_hugepage 0x200000 0x700000000000 2 0x700000000000 blank
      ≡ some written)
    × (read_hugepage 0x200000 0x700000000000 2 0x700000000000 written ≡ some (pos 0))
    × ((l k : ℕ)
        → l < 2
        → k < 0x200000
        → written (0x700000000000 + (l * 0x200000 + k)) ≡ (
            if 0x700000000000 + l * 0x200000 == 0x700000000000
            then blank (0x700000000000 + (l * 0x200000 + k))
            else expected l k))
read_hugepage-write_hugepage_example =
    read_hugepage-write_hugepage 0x200000 0x700000000000 0x700000000000 2 blank (omega arith)
      (omega arith) (omega arith)

-- Segment 5 is attached at an address of the kernel's choice.
abbrev attaching : Kernel
attaching t (Call.shmget key size flags) = pos 5
attaching t (Call.shmat id addr) = pos 0x7f0000000000
attaching t c = pos 0

abbrev started : HugeState
started = record { shmkey = pos 0; hpfd = pos 0; filepath = codes "/mnt/a"; trace = [] }

-- Four pages of three bytes.
three_bytes : read_hugepage 3 64 4 67 (write_pages 3 64 67 4 0 blank) ≡ some (pos 0)
unfolding write_pages read_hugepage
three_bytes = refl

free_hugepage-alloc_hugepage_example :
    segments attaching
      ((alloc_hugepage attaching 0x200000 2 true >>= λ addr.
          free_hugepage attaching addr 2 0x200000)
        started).1.trace
    ≡ segments attaching started.trace
free_hugepage-alloc_hugepage_example =
    free_hugepage-alloc_hugepage attaching started 0x200000 true (λ t id e. ground arith)

alloc_hugepage-ne_zero_example :
    Post started (alloc_hugepage attaching 0x200000 2 true) (λ addr _. addr ≢ 0)
alloc_hugepage-ne_zero_example = alloc_hugepage-ne_zero attaching started 0x200000 2 true

abbrev proc_line : CString
proc_line = codes "proc /proc proc rw 0 0\n"

proc_line_short : scan_mount proc_line ≡ Scanned.short
unfolding scan_mount
proc_line_short = refl

hugetlbfs_IsMount : IsMount (codes "none") (codes "/mnt") (codes "rw")
hugetlbfs_IsMount = record {
  device_word = (refl, (refl, (refl, (refl, tt))));
  dir_word = (refl, (refl, (refl, (refl, tt))));
  options_word = (refl, (refl, tt));
  device_room = omega arith;
  dir_room = omega arith;
  options_room = omega arith;
}

hugetlbfs_root-print_mount_example :
    hugetlbfs_root (some (proc_line ∷ codes "none /mnt hugetlbfs rw 0 0\n" ∷ [])) started
    ≡ (ok (some (codes "/mnt")), started)
hugetlbfs_root-print_mount_example =
    hugetlbfs_root-print_mount (proc_line ∷ []) [] b'n' (codes "one") b'/' (codes "mnt") b'r'
      (codes "w") started (proc_line_short, tt) hugetlbfs_IsMount refl
