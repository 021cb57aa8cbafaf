-- ===== src/Programs/Folio.antt =====
-- lib/test_folio_readahead.c: a page of a file, a folio or an anonymous huge page is poisoned and
-- then written. `argv` is taken from `argv[1]` on; the working directory holds `tmp`.
use mm_regression.Base.{ℕ, List, get_elem?, bit_or, ◌++◌, if◌then◌else◌}
use mm_regression.Base.Int.{ℤ, pos, negsuc, is_neg, is_minus_one}
use mm_regression.Base.Text.{CString, codes, str_eq}
use mm_regression.Libc.{print_dec}
use mm_regression.Abi
use mm_regression.Abi.{ps, hps, addr_input, protflag, map_shared, map_anonymous}
use mm_regression.Machine.{exit, stop, Call, Kernel, ◌>>=◌, ◌>>◌, pure, present, as_word, add64}
use mm_regression.Machine.Bare.{R, call, emit}

abbrev testfile : CString
testfile = codes "tmp/testfile"

-- What the first part of `main` leaves: the mapping with its file, or the status of a `return`.
pub data Mapping : Type 0 where
  mapped : (ptr : ℕ) → (fd : ℤ) → Mapping
  returns : ℤ → Mapping

module _ (kernel : Kernel) where
  map_with : (flags : ℕ) → (fd passed : ℤ) → R Mapping
  map_with flags fd passed = do
    ptr ← call kernel (Call.mmap addr_input hps protflag flags passed 0)
    pure (if is_minus_one ptr then Mapping.returns (pos 1) else Mapping.mapped (as_word ptr) fd)

  map_file : (fd : ℤ) → R Mapping
  unfolding map_with
  map_file fd = map_with map_shared fd fd

  -- With `folio` the page cache is dropped, and a page is read again.
  reopen : (fd : ℤ) → R Mapping
  unfolding map_file
  reopen fd = do
    emit kernel (Call.close fd)
    emit kernel (Call.system (codes "echo 3 > /proc/sys/vm/drop_caches"))
    again ← call kernel (Call.create_rw testfile)
    if is_minus_one again
        then pure (Mapping.returns (negsuc 0))
        else (do emit kernel (Call.pread again ps 0); map_file again)

  -- With `thpanon` the descriptor is indeterminate.
  prepare : (kind : CString) → R Mapping
  unfolding map_with map_file reopen
  prepare kind =
      if str_eq kind (codes "thpanon")
      then (do
        any ← call kernel Call.no_return
        map_with (bit_or map_shared map_anonymous) any (negsuc 0))
      else (do
        fd ← call kernel (Call.create_rw testfile)
        if is_minus_one fd then pure (Mapping.returns (negsuc 0)) else (do
          emit kernel (Call.pwrite fd hps 0)
          emit kernel (Call.fsync fd)
          if str_eq kind (codes "folio") then reopen fd else map_file fd))

  -- `madvise`, the command, and the write to the page.
  poison : (show : Call) → (ptr advice : ℕ) → R ℤ
  poison show ptr advice = do
    ret ← call kernel (Call.madvise (add64 ptr ps) ps advice)
    emit kernel show
    -- The kernel says whether SIGBUS kills the process there: `exit`.
    killed ← call kernel (Call.store (add64 ptr ps))
    if is_minus_one killed then stop exit else pure ret

  -- The operations of `argv[1]`; any other word is a soft offline.
  operate : (op : CString) → (pid ptr : ℕ) → R ℤ
  unfolding poison
  operate op pid ptr =
      let show =
        Call.system
          (codes "build/page-types -p " ++ print_dec pid (codes " -a 0x700000000+10 -Nrl\n")) in
      if str_eq op (codes "hard")
      then (do emit kernel show; poison show ptr Abi.Madv.hwpoison)
      else if str_eq op (codes "dirty_hard")
      then (do
        emit kernel (Call.store (add64 ptr ps))
        emit kernel show
        poison show ptr Abi.Madv.hwpoison)
      else if str_eq op (codes "split_hard")
      then (do
        emit kernel show
        emit kernel (Call.system (codes "echo 1 > /sys/kernel/debug/split_huge_pages\n"))
        emit kernel (Call.load ptr)
        emit kernel (Call.load (add64 ptr ps))
        emit kernel show
        poison show ptr Abi.Madv.hwpoison)
      else if str_eq op (codes "split_hard2")
      then (do
        emit kernel show
        emit kernel (
            Call.system (
              codes "echo "
              ++ print_dec pid
                  (codes ",0x700000000000,0x700000200000 > /sys/kernel/debug/split_huge_pages\n")))
        emit kernel show
        poison show ptr Abi.Madv.hwpoison)
      else poison show ptr Abi.Madv.soft_offline

  -- A `ret` above 0 falls off the end of `main`, which returns 0 then.
  pub use_mapping : (op : CString) → Mapping → R ℤ
  unfolding operate
  use_mapping op (Mapping.returns status) = pure status
  use_mapping op (Mapping.mapped ptr fd) = do
    emit kernel (Call.load ptr)
    emit kernel (Call.load (add64 ptr ps))
    pid ← call kernel Call.getpid
    ret ← operate op (as_word pid) ptr
    emit kernel (Call.munmap ptr hps)
    emit kernel (Call.close fd)
    emit kernel (Call.unlink testfile)
    pure (if is_neg ret then pos 1 else pos 0)

  -- The exit status.
  pub main : (argv : List CString) → R ℤ
  unfolding prepare use_mapping
  main argv = do
    kind ← present (get_elem? argv 1)
    op ← present (get_elem? argv 0)
    m ← prepare kind
    use_mapping op m
