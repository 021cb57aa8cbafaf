-- ===== src/Programs/Poison.antt =====
-- Programs that poison or move a page and report whether that worked: lib/test_splice.c,
-- lib/test_devdax_simple.c, lib/test_ksm_madv_soft.c, lib/test_thp_mlock.c, lib/test_fsdax.c and
-- lib/test_zero_pages.c. The result of each is its exit status.
use mm_regression.Base.{ℕ, zero, suc, ◌+◌, ◌*◌, ◌/◌, List, [], ◌∷◌, ◌++◌, bit_or, if◌then◌else◌}
use mm_regression.Base.Int.{ℤ, pos, negsuc, is_neg, is_zero, is_minus_one}
use mm_regression.Base.Text.{CString, codes}
use mm_regression.Libc.{print_dec}
use mm_regression.Abi
use mm_regression.Abi.{ps, hps, addr_input, protflag, map_shared, map_private_anonymous}
use mm_regression.PageInfo.{get_pagestat}
use mm_regression.Machine
use mm_regression.Machine.{
  Call, Kernel, M, exit, fault, ◌>>=◌, ◌>>◌, done, pure, stop, as_word, add64, times,
}
use mm_regression.Machine.Bare.{R, call, emit}

abbrev failure : ℤ
failure = negsuc 0

abbrev map_sync : ℕ
map_sync = 0x80000

abbrev map_locked : ℕ
map_locked = 0x2000

-- MPOL_PREFERRED | MPOL_F_RELATIVE_NODES
abbrev preferred_relative : ℕ
preferred_relative = bit_or 1 0x4000

module _ (kernel : Kernel) where
  -- `argv` from `argv[1]` on.
  pub splice_main : (argv : List CString) → R ℤ
  splice_main [] = pure failure
  splice_main (path ∷ argv) = do
    fd1 ← call kernel (Call.create_rw path)
    if is_neg fd1 then pure failure else (do
      emit kernel (Call.pwrite fd1 ps 0)
      ptr ← call kernel (Call.mmap 0 ps protflag map_shared fd1 0)
      emit kernel (Call.madvise (as_word ptr) ps Abi.Madv.hwpoison)
      piped ← call kernel Call.pipe
      if is_neg piped then pure failure else (do
        to ← call kernel Call.pipe_write_end
        moved ← call kernel (Call.splice fd1 to ps 1)
        pure (if is_neg moved then failure else pos 0)))

  write_pages : (ptr left i : ℕ) → R (Unit {0})
  write_pages ptr zero i = done
  write_pages ptr (suc left) i = do
    emit kernel (Call.memset (add64 ptr (i * ps)) ps)
    write_pages ptr left (i + 1)

  -- 1 where the page could not be poisoned, and 2 where it can still be read then.
  pub devdax_main : R ℤ
  unfolding write_pages
  devdax_main = do
    fd ← call kernel (Call.create_rw (codes "/dev/dax0.6"))
    if is_minus_one fd then pure failure else (do
      ptr ←
          call kernel (Call.mmap addr_input hps protflag (bit_or map_shared map_sync) fd 0x40000000)
      if is_minus_one ptr then pure failure else (do
        write_pages (as_word ptr) (hps / ps) 0
        emit kernel (Call.madvise (as_word ptr) ps Abi.Madv.normal)
        ret ← call kernel (Call.madvise (as_word ptr) ps Abi.Madv.hwpoison)
        emit kernel (Call.madvise (as_word ptr) ps Abi.Madv.normal)
        if is_neg ret
            then pure (pos 1)
            else (do emit kernel (Call.load (as_word ptr)); pure (pos 2))))

  -- Neither mapping is checked.
  pub ksm_main : R ℤ
  ksm_main = do
    let size = 100000 * 0x1000
    p1 ← call kernel (Call.mmap 0 size protflag map_private_anonymous (negsuc 0) 0)
    p2 ← call kernel (Call.mmap 0 size protflag map_private_anonymous (negsuc 0) 0)
    emit kernel (Call.madvise (as_word p1) size Abi.Madv.mergeable)
    emit kernel (Call.madvise (as_word p2) size Abi.Madv.mergeable)
    emit kernel (Call.memset (as_word p1) size)
    emit kernel (Call.memset (as_word p2) size)
    emit kernel (Call.usleep 10000000)
    ret ← call kernel (Call.madvise (as_word p1) size Abi.Madv.soft_offline)
    if is_zero ret
        then (do
          emit kernel (Call.madvise (as_word p1) size Abi.Madv.unmergeable)
          emit kernel (Call.madvise (as_word p2) size Abi.Madv.unmergeable)
          pure (pos 0))
        else stop exit

  -- The parent, and a parent whose `fork` has failed, waits.
  pub thp_mlock_main : R ℤ
  thp_mlock_main = do
    addr ←
        call kernel
          (Call.mmap 0x20000000 hps protflag (bit_or map_private_anonymous map_locked) (negsuc 0) 0)
    child ← call kernel Call.fork
    if is_zero child
        then (do
          emit kernel (Call.mlock (as_word addr) ps)
          emit kernel (Call.mbind (as_word addr) hps preferred_relative 4 2)
          pure (pos 0))
        else (do emit kernel Call.wait; pure (pos 0))

  -- Up to the first `return`; what follows it is never reached.
  pub fsdax_main : R ℤ
  fsdax_main = do
    emit kernel (Call.stat (codes "/mnt/pmem/ext4/data1"))
    fd ← call kernel (Call.create_rw (codes "/mnt/pmem/ext4/date1"))
    emit kernel (Call.pwrite fd 4096 0)
    pid ← call kernel Call.getpid
    emit kernel (Call.system (codes "page-types -p " ++ print_dec (as_word pid) (codes " -Nrl")))
    pure (pos 0)

  -- The pages are read, so that the zero page is behind them.
  pub zero_pages_main : (pagemap kpagecount : (index count : ℕ) → List ℕ) → M ℤ
  zero_pages_main pagemap kpagecount = do
    ptr ← Machine.call kernel (Call.mmap addr_input hps protflag map_private_anonymous (negsuc 0) 0)
    if is_minus_one ptr then pure (pos 1) else (do
      times (hps / ps) 0 (λ i. Machine.emit kernel (Call.load (add64 (as_word ptr) (i * ps))))
      get_pagestat kernel pagemap kpagecount (as_word ptr)
      Machine.emit kernel (Call.usleep 1000000000)
      pure (pos 0))
