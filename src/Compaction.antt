-- ===== src/Compaction.antt =====
-- lib/include.h: the operation that makes the kernel compact the memory. `rounds` bounds the
-- rounds of its loop that are looked at.

use mm_regression.Base.{ℕ, ◌+◌, ◌-◌, ◌*◌, ◌/◌, ◌%◌, ◌^◌, [], some, ltb, ◌==◌, not, if◌then◌else◌}
use mm_regression.Base.Int.{negsuc, is_zero}
use mm_regression.Base.Text.{codes}
use mm_regression.Abi
use mm_regression.Abi.{ps, thps, protflag, prot_read, map_private_anonymous, addr_input}
use mm_regression.Wait.{pprintf_wait_func}
use mm_regression.Machine.{
  Call, Kernel, exit, M, stop, ◌>>=◌, ◌>>◌, done, call, emit, times, as_word,
}

-- The length: the physical memory, at most a quarter of the address space, in huge pages.
pub compaction_len : (pages page_size : ℕ) → ℕ
compaction_len pages page_size =
    let ram =
      if ltb ((2 ^ 64 - 1) / page_size / 4) pages then (2 ^ 64 - 1) / 4 else pages * page_size in
    ram - ram % thps

module _ (kernel : Kernel) where
  module _ (rounds : ℕ) where
    -- `allocate_transhuge`: maps one huge page and writes to each of its pages.
    allocate_transhuge : ℕ → M (Unit {0})
    allocate_transhuge ptr = do
      map ← call kernel (Call.mmap ptr thps protflag 0x4032 (negsuc 0) 0)
      if not (as_word map == ptr) then stop exit else (do
        r ← call kernel (Call.madvise ptr thps Abi.Madv.hugepage)
        if not (is_zero r)
            then stop exit
            else times 512 0 (λ i. emit kernel (Call.store (ptr + i * ps))))

    compaction_step : ℕ → M (Unit {0})
    unfolding allocate_transhuge
    compaction_step p = do
      allocate_transhuge p
      r ← call kernel (Call.madvise p (thps - ps) Abi.Madv.dontneed)
      if not (is_zero r) then stop exit else done

    -- `__do_memory_compaction`
    compact : (ptr len : ℕ) → M (Unit {0})
    unfolding compaction_step
    compact ptr len = times ((len + thps - 1) / thps) 0 (λ i. compaction_step (ptr + i * thps))

    pub do_memory_compaction : M (Unit {0})
    unfolding compact compaction_len
    do_memory_compaction = do
      pages ← call kernel Call.sysconf_phys_pages
      page_size ← call kernel Call.sysconf_pagesize
      let len = compaction_len (as_word pages) (as_word page_size)
      ptr ← call kernel (Call.mmap addr_input (len + thps) protflag 0x4022 (negsuc 0) 0)
      r ← call kernel (Call.madvise (as_word ptr) len Abi.Madv.hugepage)
      if not (is_zero r)
          then stop exit
          else pprintf_wait_func kernel rounds (some (compact (as_word ptr) len))
              (codes "now doing memory compaction\n") []
