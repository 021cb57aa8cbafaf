-- ===== src/PageOps.antt =====
-- lib/include.h: the operations that make one system call, or one per huge page, on every chunk.
-- Several of the functions applied to a chunk end with no `return`: `unreturned` is their result.
use mm_regression.Base.{
  ℕ, zero, suc, ◌+◌, ◌-◌, ◌*◌, ◌/◌, ◌%◌, ◌^◌, List, [], ◌∷◌, Option, none, some, Bool, true, false,
  ltb, ◌==◌, ◌||◌, not, bit_and, bit_or, if◌then◌else◌,
}
use mm_regression.Base.Int.{ℤ, pos, negsuc, is_neg, is_minus_one}
use mm_regression.Base.Text.{CString, codes, str_eq}
use Prim.Native.String.{String}
use mm_regression.Libc.{strtoul}
use mm_regression.Abi
use mm_regression.Abi.{ps, hps, thps, chunk_pages, addr_input, protflag, prot_exec}
use mm_regression.Backend
use mm_regression.Opc.{OpControl, opc_defined, opc_get_value}
use mm_regression.Chunk.{checked_munmap, free_shmem, do_work_memory}
use mm_regression.Machine.{
  Call, Kernel, MemChunk, exit, fault, M, pure, stop, ◌>>=◌, ◌>>◌, done, gets, puts, call, emit,
  times, int_mul, as_word, sext, add64,
}

-- `(size - 1) / HPS + 1`, the number of huge pages, in 64-bit words
pub nr_hugepages : ℕ → ℕ
nr_hugepages size = (size + 2 ^ 64 - 1) % 2 ^ 64 / hps + 1

-- The addresses of the pages from `p` on, and the huge pages with their size.
pages_of : (p left : ℕ) → List ℕ
pages_of p zero = []
pages_of p (suc left) = p ∷ pages_of (p + ps) left

huge_areas : (p left : ℕ) → List (ℕ × ℕ)
huge_areas p zero = []
huge_areas p (suc left) = (p, hps) ∷ huge_areas (p + hps) left

-- An argument read with `strtoul` into a variable of 32 bits, or what the variable held.
pub int_arg : OpControl → String → (default : ℕ) → ℕ
int_arg opc key default = elim (opc_get_value opc (codes key)) [
  | none ↦ default
  | some text ↦ strtoul text % 2 ^ 32
]

-- MPOL_MF_MOVE|MPOL_MF_STRICT, as the `flags` argument changes it
pub mbind_flags : Option CString → ℕ
mbind_flags none = bit_or Abi.Mpol.mf_move Abi.Mpol.mf_strict
mbind_flags (some text) =
    let flags = bit_or Abi.Mpol.mf_move Abi.Mpol.mf_strict in
    if str_eq text (codes "move")
    then bit_or flags Abi.Mpol.mf_move
    else if str_eq text (codes "move_all")
    then bit_or (bit_and flags (2 ^ 32 - 1 - Abi.Mpol.mf_move)) Abi.Mpol.mf_move_all
    else flags

-- `numa_bitmask_alloc(nr_nodes)` (or `numa_bitmask_clearall`) and `numa_bitmask_setbit` for one
-- node. A bit beyond the size of the mask is not set.
pub set_new_nodes : (node : ℕ) → M (Unit {0})
set_new_nodes node =
    puts (λ s. record s { new_nodes = if ltb node s.nr_nodes then 2 ^ node else 0 })

module _ (kernel : Kernel) where
  unreturned : M ℤ
  unreturned = call kernel Call.no_return

  -- the call on the whole chunk, or the loop over the huge pages with a call for each
  on_parts : (partial : Bool) → MemChunk → (ℕ → M (Unit {0})) → M (Unit {0}) → M (Unit {0})
  on_parts partial mc part whole =
      if partial then times (nr_hugepages mc.chunk_size) 0 (λ i. part (mc.p + i * hps)) else whole

  -- `__munmap_chunk`
  pub munmap_chunk : (hp_partial : Bool) → MemChunk → M ℤ
  unfolding on_parts unreturned
  munmap_chunk hp_partial mc = do
    if mc.mem_type == Backend.hugetlb_shmem || mc.mem_type == Backend.normal_shmem
        then free_shmem kernel mc
        else if mc.mem_type == Backend.devmem
        then checked_munmap kernel mc.p (3 * ps)
        else on_parts hp_partial mc (λ a. checked_munmap kernel a (511 * ps))
            (checked_munmap kernel mc.p mc.chunk_size)
    unreturned

  pub do_munmap : OpControl → M (Option ℤ)
  unfolding munmap_chunk
  do_munmap opc = do_work_memory (munmap_chunk (opc_defined opc (codes "hp_partial")))

  -- A call on the whole chunk, or on the first page of each huge page: the shape of
  -- `__mbind_chunk`, `__mlock_chunk`, `__munlock_chunk`, `__mlock2_chunk` and `__mprotect_chunk`.
  lock_chunk : (addr_size : ℕ → ℕ → Call) → (part_size : ℕ) → (hp_partial : Bool) → MemChunk → M ℤ
  unfolding on_parts unreturned
  lock_chunk f part_size hp_partial mc = do
    on_parts hp_partial mc (λ a. emit kernel (f a part_size)) (emit kernel (f mc.p mc.chunk_size))
    unreturned

  pub mbind_chunk : (mode flags : ℕ) → (hp_partial : Bool) → MemChunk → M ℤ
  unfolding lock_chunk
  mbind_chunk mode flags hp_partial mc = do
    nodes ← gets (λ s. s.new_nodes)
    lock_chunk (λ a n. Call.mbind a n mode nodes flags) ps hp_partial mc

  pub do_mbind : OpControl → M (Option ℤ)
  unfolding mbind_chunk set_new_nodes mbind_flags
  do_mbind opc = do
    let flags = mbind_flags (opc_get_value opc (codes "flags"))
    set_new_nodes 1
    do_work_memory (mbind_chunk Abi.Mpol.bind flags (opc_defined opc (codes "hp_partial")))

  -- `random() % n`, which is undefined for no `n`
  random_below : ℕ → M ℕ
  random_below n = do
    r ← call kernel Call.random
    if n == 0 then stop fault else pure (as_word r % n)

  mbind_fuzz_chunk : MemChunk → M ℤ
  unfolding random_below unreturned
  mbind_fuzz_chunk mc = do
    nr_nodes ← gets (λ s. s.nr_nodes)
    nr_p ← gets (λ s. s.nr_p)
    node ← random_below nr_nodes
    first ← random_below nr_p
    pages ← random_below (nr_p - first)
    nodes ← gets (λ s. bit_or s.new_nodes (2 ^ node))
    puts (λ s. record s { new_nodes = nodes })
    emit kernel (
        Call.mbind (mc.p + first * ps) (mc.chunk_size + pages * ps) Abi.Mpol.bind nodes
          (mbind_flags none))
    unreturned

  move_pages_chunk : (node : ℕ) → MemChunk → M ℤ
  unfolding unreturned
  move_pages_chunk node mc = do
    emit kernel (Call.move_pages (pages_of mc.p (mc.chunk_size / ps)) node Abi.Mpol.mf_move_all)
    unreturned

  pub do_move_pages : M (Option ℤ)
  unfolding move_pages_chunk
  do_move_pages = do_work_memory (move_pages_chunk 1)

  mlock_chunk : OpControl → MemChunk → M ℤ
  unfolding lock_chunk
  mlock_chunk opc = lock_chunk Call.mlock ps (opc_defined opc (codes "hp_partial"))

  pub do_mlock : OpControl → M (Option ℤ)
  unfolding mlock_chunk
  do_mlock opc = do_work_memory (mlock_chunk opc)

  munlock_chunk : OpControl → MemChunk → M ℤ
  unfolding lock_chunk
  munlock_chunk opc = lock_chunk Call.munlock ps (opc_defined opc (codes "hp_partial"))

  pub do_munlock : OpControl → M (Option ℤ)
  unfolding munlock_chunk
  do_munlock opc = do_work_memory (munlock_chunk opc)

  mlock2_chunk : OpControl → MemChunk → M ℤ
  unfolding lock_chunk
  mlock2_chunk opc = lock_chunk Call.mlock2 ps (opc_defined opc (codes "hp_partial"))

  pub do_mlock2 : OpControl → M (Option ℤ)
  unfolding mlock2_chunk
  do_mlock2 opc = do_work_memory (mlock2_chunk opc)

  -- -1, the default of `permission`, stands for `protflag | PROT_EXEC`.
  mprotect_chunk : (permission : ℕ) → (hp_partial : Bool) → MemChunk → M ℤ
  unfolding lock_chunk
  mprotect_chunk permission hp_partial =
      let prot = if permission == 2 ^ 32 - 1 then bit_or protflag prot_exec else permission in
      lock_chunk (λ a n. Call.mprotect a n prot) ps hp_partial

  pub do_mprotect : OpControl → M (Option ℤ)
  unfolding mprotect_chunk
  do_mprotect opc =
      let hp_partial = int_arg opc "hp_partial" 0 in
      let permission = int_arg opc "permission" (2 ^ 32 - 1) in
      do_work_memory (mprotect_chunk permission (not (hp_partial == 0)))

  -- 0 where the region has moved, else -1
  mremap_chunk : (back : Bool) → MemChunk → M ℤ
  mremap_chunk back mc = do
    nr_chunk ← gets (λ s. s.nr_chunk)
    pages ← int_mul nr_chunk chunk_pages
    let there = add64 mc.p (sext (pages * ps))
    r ← call kernel (
        if back then Call.mremap there mc.chunk_size mc.p else Call.mremap mc.p mc.chunk_size there)
    pure (if is_minus_one r then negsuc 0 else pos 0)

  pub do_mremap : M (Option ℤ)
  unfolding mremap_chunk
  do_mremap = do_work_memory (mremap_chunk false)

  sync_file_range_chunk : MemChunk → M ℤ
  unfolding unreturned
  sync_file_range_chunk mc = do
    fd ← gets (λ s. s.fd)
    emit kernel (Call.sync_file_range fd ((mc.p + 2 ^ 64 - addr_input) % 2 ^ 64) mc.chunk_size)
    unreturned

  pub do_fsync_file_range : M (Option ℤ)
  unfolding sync_file_range_chunk
  do_fsync_file_range = do_work_memory sync_file_range_chunk

  -- `madvise` on the last page of each huge page; a negative result ends the process.
  split_thp_chunk : MemChunk → M ℤ
  unfolding unreturned
  split_thp_chunk mc = do
    times ((mc.chunk_size + thps - 1) / thps) 0 λ i. do
      r ← call kernel (Call.madvise (mc.p + (i + 1) * thps - ps) ps Abi.Madv.dontneed)
      if is_neg r then stop exit else done
    unreturned

  pub split_thp_chunks : M (Option ℤ)
  unfolding split_thp_chunk
  split_thp_chunks = do_work_memory split_thp_chunk

  -- The two arrays have 1024 elements.
  process_vm_access_chunk : (pid : ℤ) → MemChunk → M ℤ
  unfolding unreturned
  process_vm_access_chunk pid mc = do
    let areas = huge_areas mc.p (mc.chunk_size / hps)
    if ltb 1024 (mc.chunk_size / hps)
        then stop fault
        else emit kernel (Call.process_vm_readv pid areas)
    unreturned

  pub process_vm_access_chunks : (pid : ℤ) → M (Option ℤ)
  unfolding process_vm_access_chunk
  process_vm_access_chunks pid = do_work_memory (process_vm_access_chunk pid)

  -- The body of the loop of `do_mbind_fuzz`, and one trip of the pingpong operations.
  pub mbind_fuzz_round : M (Option ℤ)
  unfolding mbind_fuzz_chunk
  mbind_fuzz_round = do_work_memory mbind_fuzz_chunk

  pub iterate_mbind_pingpong : M (Unit {0})
  unfolding mbind_chunk set_new_nodes mbind_flags
  iterate_mbind_pingpong = do
    set_new_nodes 1
    _ ← do_work_memory (mbind_chunk Abi.Mpol.bind (mbind_flags none) false)
    set_new_nodes 0
    _ ← do_work_memory (mbind_chunk Abi.Mpol.bind (mbind_flags none) false)
    done

  pub move_pages_pingpong : M (Unit {0})
  unfolding move_pages_chunk
  move_pages_pingpong = do
    _ ← do_work_memory (move_pages_chunk 1)
    _ ← do_work_memory (move_pages_chunk 0)
    done

  -- One round of `do_mremap_stress`.
  pub mremap_round : M (Unit {0})
  unfolding mremap_chunk
  mremap_round = do
    _ ← do_work_memory (mremap_chunk false)
    _ ← do_work_memory (mremap_chunk true)
    done
