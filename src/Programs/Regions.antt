-- ===== src/Programs/Regions.antt =====
-- lib/misc/truncate_mapped_file.c and lib/misc/reproduce_220127.c: a mapped file whose pages are
-- dropped while they are mapped. `argv` is taken from `argv[1]` on.
pub mod Pages
use mm_regression.Base.{
  ℕ, zero, suc, ◌+◌, ◌-◌, ◌*◌, ◌/◌, ◌%◌, ◌^◌, List, [], ◌∷◌, ◌++◌, Option, none, some, ltb, ◌==◌,
  get_elem?, if◌then◌else◌,
}
use mm_regression.Base.Int.{ℤ}
use mm_regression.Base.Text.{CString, codes}
use mm_regression.Libc.{strtol, print_dec}
use mm_regression.Abi
use mm_regression.Abi.{ps, protflag, map_shared, map_private}
use mm_regression.PageInfo.{print_hex}
use mm_regression.Machine.{
  Call, Kernel, ok, fault, stop, ◌>>=◌, ◌>>◌, done, present, as_word, add64, into_buffer,
}
use mm_regression.Machine.Bare.{R, call, emit}

module _ (kernel : Kernel) where
  -- `while (i < size) { addr[i] = 1; i += PS; }` from `i` on, where `left` rounds are left; with
  -- `touch` a store or a load. Both programs have the same two functions.
  region_loop : (touch : ℕ → Call) → (addr left i : ℕ) → R (Unit {0})
  region_loop touch addr zero i = done
  region_loop touch addr (suc left) i = do
    emit kernel (touch (add64 addr i))
    region_loop touch addr left (i + ps)

  pub write_region : (addr size : ℕ) → R (Unit {0})
  unfolding region_loop
  write_region addr size = region_loop Call.store addr ((size + ps - 1) / ps) 0

  pub read_region : (addr size : ℕ) → R (Unit {0})
  unfolding region_loop
  read_region addr size = region_loop Call.load addr ((size + ps - 1) / ps) 0

  -- The command is formatted into 256 bytes.
  pub check_region : (ptr size : ℕ) → R (Unit {0})
  check_region ptr size = do
    pid ← call kernel Call.getpid
    cmd ← into_buffer 256 (
        codes "/root/page-types -p "
        ++ print_dec (as_word pid) (
            codes " -a " ++ print_hex (ptr / 2 ^ 12) (codes "+" ++ print_dec size (codes " -Nrl"))))
    emit kernel (Call.system cmd)

  -- What both programs do first: the file, as large as the mapping, and the flags of `mmap`.
  prepare_file : (argv : List CString) → (size : ℕ) → R (ℤ × ℕ)
  prepare_file argv size = do
    path ← present (get_elem? argv 0)
    fd ← call kernel (Call.create_rw path)
    shared ← present (get_elem? argv 1)
    emit kernel (Call.fallocate fd 0 0 size)
    λ t. (ok (fd, if strtol shared % 2 ^ 32 == 0 then map_private else map_shared), t)

  pub truncate_main : (argv : List CString) → R (Unit {0})
  unfolding prepare_file write_region check_region
  truncate_main argv = do
    let size = 2 * 1024 * 1024
    (fd, mapflag) ← prepare_file argv size
    ptr1 ← call kernel (Call.mmap 0 size protflag mapflag fd 0)
    write_region (as_word ptr1) size
    ptr2 ← call kernel (Call.mmap 0 size protflag mapflag fd 0)
    write_region (as_word ptr2) size
    check_region (as_word ptr1) 3
    check_region (as_word ptr2) 3
    emit kernel (Call.madvise (as_word ptr1) size Abi.Madv.dontneed)
    emit kernel (Call.madvise (as_word ptr1) (10 * ps) Abi.Madv.dontneed)
    check_region (as_word ptr1) 3
    check_region (as_word ptr2) 3
    emit kernel (Call.madvise (as_word ptr1) (10 * ps) Abi.Madv.remove)
    check_region (as_word ptr1) 3
    check_region (as_word ptr2) 3

  pub reproduce_main : (argv : List CString) → R (Unit {0})
  unfolding prepare_file write_region
  reproduce_main argv = do
    let size = 2 * 1024 * 1024
    (fd, mapflag) ← prepare_file argv size
    ptr1 ← call kernel (Call.mmap 0 size protflag mapflag fd 0)
    write_region (as_word ptr1) size
    emit kernel (Call.madvise (as_word ptr1) (size - ps) Abi.Madv.dontneed)
