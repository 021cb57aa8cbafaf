-- ===== src/Chunk.antt =====
-- lib/include.h: the chunks of memory that the operations work on, how each is mapped, and the
-- loop that applies an operation to all of them; setup() of lib/test_alloc_generic.c.
pub mod Size
pub mod Places
pub mod Quiet
pub mod Layout
pub mod Mapped
pub mod Filled
pub mod Complete
pub mod Visits
pub mod Tests
use mm_regression.Base.{
  ℕ, zero, suc, ◌+◌, ◌-◌, ◌*◌, ◌/◌, ◌%◌, ◌^◌, List, [], ◌∷◌, Option, none, some, Bool, true, false,
  ltb, ◌==◌, not, ◌&&◌, ◌||◌, bit_and, bit_or, replicate, if◌then◌else◌, ◌++◌,
}
use mm_regression.Base.Int.{ℤ, pos, negsuc, is_neg, is_minus_one, is_zero}
use mm_regression.Base.Text.{CString, codes}
use mm_regression.Abi
use mm_regression.Abi.{
  ps, chunk_pages, addr_input, protflag, prot_read, map_shared, map_private_anonymous, map_hugetlb,
  shm_flags, shm_hugetlb, eexist,
}
use mm_regression.Machine.{
  Call, Kernel, MemChunk, State, ok, exit, fault, M, pure, stop, ◌>>=◌, ◌>>◌, done, gets, puts,
  call, emit, chunk_at, set_chunk, as_word, int_mul, into_buffer,
}
use mm_regression.Backend
use mm_regression.Backend.{be, for_each_backend, get_nr_mem_types}

-- `(nr_p - 1) / CHUNKSIZE + 1`, which is 1 for no pages too
unfoldable pub nr_chunk_of : ℕ → ℕ
nr_chunk_of nr_p = (nr_p - 1) / chunk_pages + 1

-- The size of the chunk `i` of a memory type, where `nr_p - 1` is -1 for no pages.
unfoldable pub size_of_chunk : (nr_p nr_chunk i : ℕ) → ℕ
size_of_chunk nr_p nr_chunk i =
    if i % nr_chunk == nr_chunk - 1
    then (if nr_p == 0 then 0 else ((nr_p - 1) % chunk_pages + 1) * ps)
    else chunk_pages * ps

-- `i % nr_chunk` is undefined for no chunks.
pub get_size_of_chunked_mmap_area : ℕ → M ℕ
get_size_of_chunked_mmap_area i s =
    if s.nr_chunk == 0 then (fault, s) else (ok (size_of_chunk s.nr_p s.nr_chunk i), s)

module _ (kernel : Kernel) where
  -- test_core/lib/include.h
  unfoldable pub checked_mmap : (start size prot flags : ℕ) → ℤ → ℕ → M ℕ
  checked_mmap start size prot flags fd offset = do
    map ← call kernel (Call.mmap start size prot flags fd offset)
    if is_minus_one map
        then stop exit
        else if not (start == 0) && not (as_word map == start)
        then stop exit
        else pure (as_word map)

  pub checked_munmap : (start size : ℕ) → M (Unit {0})
  checked_munmap start size = do
    r ← call kernel (Call.munmap start size)
    if is_minus_one r then stop exit else done

  pub checked_open : CString → M ℤ
  checked_open path = do r ← call kernel (Call.open_rw path); if is_neg r then stop exit else pure r

  -- The new `mc->shmkey` and the address; 0 is NULL.
  pub alloc_shmem : MemChunk → (exp_addr : ℕ) → (hugetlb : Bool) → M MemChunk
  alloc_shmem mc exp_addr hugetlb = do
    key ← gets (λ s. s.shmkey)
    let flags = if hugetlb then bit_or shm_flags shm_hugetlb else shm_flags
    shmid ← call kernel (Call.shmget key mc.chunk_size flags)
    if is_neg shmid then pure (record mc { p = 0 }) else do
      addr ← call kernel (Call.shmat shmid exp_addr)
      if is_minus_one addr || not (as_word addr == exp_addr)
          then (do emit kernel (Call.shmctl_rmid shmid); stop exit)
          else pure (record mc { p = as_word addr; shmkey = shmid })

  pub free_shmem : MemChunk → M (Unit {0})
  free_shmem mc = do emit kernel (Call.shmdt mc.p); emit kernel (Call.shmctl_rmid mc.shmkey)

  -- `mc->p = checked_mmap(...)`, with a `madvise` whose result is not read
  map_private : MemChunk → (baseaddr flags : ℕ) → M MemChunk
  map_private mc baseaddr flags = do
    a ← checked_mmap baseaddr mc.chunk_size protflag flags (negsuc 0) 0
    pure (record mc { p = a })

  advise : MemChunk → ℕ → M MemChunk
  advise mc advice = do emit kernel (Call.madvise mc.p mc.chunk_size advice); pure mc

  map_file : MemChunk → (baseaddr : ℕ) → ℤ → M MemChunk
  map_file mc baseaddr fd = do
    a ← checked_mmap baseaddr mc.chunk_size protflag map_shared fd mc.offset
    pure (record mc { p = a })

  map_thp : MemChunk → ℕ → M MemChunk
  unfolding map_private
  map_thp mc baseaddr = do
    mc' ← map_private mc baseaddr map_private_anonymous
    r ← call kernel (Call.madvise mc'.p mc'.chunk_size Abi.Madv.hugepage)
    if is_minus_one r then stop exit else pure mc'

  map_devmem : MemChunk → ℕ → M MemChunk
  map_devmem mc baseaddr = do
    dev ← checked_open (codes "/dev/mem")
    a ← checked_mmap baseaddr ps protflag map_private_anonymous dev 0
    b ← checked_mmap (baseaddr + ps) ps prot_read map_shared dev 0xf0000
    c ← checked_mmap (baseaddr + 2 * ps) ps protflag map_private_anonymous dev 0
    pure (record mc { p = a })

  -- the `switch` of `prepare_memory`
  pub map_backend : (type : ℕ) → MemChunk → ℕ → M MemChunk
  unfolding map_private advise map_file map_thp map_devmem
  map_backend type mc baseaddr =
      if type == Backend.pagecache
      then (do fd ← gets (λ s. s.fd); map_file mc baseaddr fd)
      else if type == Backend.anonymous || type == Backend.zero_page
      then (do mc' ← map_private mc baseaddr map_private_anonymous; advise mc' Abi.Madv.nohugepage)
      else if type == Backend.thp
      then map_thp mc baseaddr
      else if type == Backend.hugetlb_anon
      then (do
        mc' ← map_private mc baseaddr (bit_or map_private_anonymous map_hugetlb)
        advise mc' Abi.Madv.dontneed)
      else if type == Backend.hugetlb_shmem
      then alloc_shmem mc baseaddr true
      else if type == Backend.hugetlb_file
      then (do fd ← gets (λ s. s.hugetlbfd); map_file mc baseaddr fd)
      else if type == Backend.ksm
      then (do mc' ← map_private mc baseaddr map_private_anonymous; advise mc' Abi.Madv.mergeable)
      else if type == Backend.huge_zero
      then (do mc' ← map_private mc baseaddr map_private_anonymous; advise mc' Abi.Madv.hugepage)
      else if type == Backend.normal_shmem
      then alloc_shmem mc baseaddr false
      else if type == Backend.devmem
      then map_devmem mc baseaddr
      else pure mc

  pub prepare_memory : MemChunk → (baseaddr offset : ℕ) → M MemChunk
  unfolding map_backend
  prepare_memory mc baseaddr offset =
      map_backend mc.mem_type (record mc { offset = offset }) baseaddr

  -- the body of the inner loop of `do_mmap`, for the chunk `i` of the `j`-th memory type
  pub map_chunk : (type j i : ℕ) → M (Unit {0})
  unfolding prepare_memory get_size_of_chunked_mmap_area
  map_chunk type j i = do
    n ← gets (λ s. s.nr_chunk)
    let k = i + j * n
    pages ← int_mul k chunk_pages
    size ← get_size_of_chunked_mmap_area i
    mc ← chunk_at k
    mc' ←
        prepare_memory (record mc { mem_type = type; chunk_size = size }) (addr_input + pages * ps)
          (i * chunk_pages * ps)
    set_chunk k mc'

  pub map_chunks : (type j left i : ℕ) → M (Unit {0})
  map_chunks type j zero i = done
  map_chunks type j (suc left) i = do map_chunk type j i; map_chunks type j left (i + 1)

  map_types : List ℕ → (j : ℕ) → M (Unit {0})
  unfolding map_chunks map_chunk
  map_types [] j = done
  map_types (type ∷ types) j = do
    n ← gets (λ s. s.nr_chunk)
    map_chunks type j n 0
    map_types types (j + 1)

  pub do_mmap : M (Unit {0})
  unfolding map_types
  do_mmap = do bitmap ← gets (λ s. s.backend_bitmap); map_types (for_each_backend bitmap) 0

module _ (func : MemChunk → M ℤ) where
  -- the inner loop of `do_work_memory`; a nonzero result breaks it
  pub work_chunks : (left i j : ℕ) → Option ℤ → M (Option ℤ)
  work_chunks zero i j ret = pure ret
  work_chunks (suc left) i j ret = do
    n ← gets (λ s. s.nr_chunk)
    mc ← chunk_at (i + j * n)
    r ← func mc
    if is_zero r then work_chunks left (i + 1) j (some r) else pure (some r)

  -- the outer loop
  pub work_types : (left j : ℕ) → Option ℤ → M (Option ℤ)
  unfolding work_chunks
  work_types zero j ret = pure ret
  work_types (suc left) j ret = do
    n ← gets (λ s. s.nr_chunk)
    r ← work_chunks n 0 j ret
    work_types left (j + 1) r

  -- `none` is a result that was never written; no caller reads it.
  unfoldable pub do_work_memory : M (Option ℤ)
  unfolding work_types
  do_work_memory = do types ← gets (λ s. s.nr_mem_types); work_types types 0 none
