-- ===== src/Gigantic.antt =====
-- lib/hugetlb_1gb.c: a program that works on huge pages of 1 GB, and its operations.
pub mod Parse
pub mod Main
pub mod Areas
pub mod Tests
use mm_regression.Base.{
  ℕ, zero, suc, ◌+◌, ◌-◌, ◌*◌, ◌^◌, List, [], ◌∷◌, ◌++◌, Option, none, some, Bool, true, false,
  ◌==◌, not, ◌||◌, bit_or, if◌then◌else◌,
}
use mm_regression.Base.Int.{ℤ, pos, negsuc, is_neg, is_zero, is_minus_one}
use mm_regression.Base.Text.{CString, codes, str_eq}
use mm_regression.Abi
use mm_regression.Abi.{
  addr_input, protflag, map_shared, map_private_anonymous, map_hugetlb, shm_flags, shm_hugetlb,
}
use mm_regression.Opc.{OpControl, opc_get_value}
use mm_regression.Machine.{
  Call, Kernel, Run, ok, exit, running, pure, stop, ◌>>=◌, ◌>>◌, done, gets, puts, present, as_word,
  add64,
}

-- The globals of the program, with the calls made so far (latest first).
pub record GigaState : Type 0 where
  pub size : ℕ
  pub ghp : ℕ
  pub ghfd : ℤ
  -- whether a pipe was given by -p
  pub testpipe : Bool
  pub trace : List Call

abbrev pub G : Type 0 → Type 0
G A = Run GigaState A

-- `30 << 26`, the size of the pages as a flag
abbrev pub size_flag : ℕ
size_flag = 30 * 2 ^ 26

module _ (kernel : Kernel) where
  unfoldable pub call : Call → G ℤ
  call c s = (ok (kernel s.trace c), record s { trace = c ∷ s.trace })

  unfoldable pub emit : Call → G (Unit {0})
  emit c s = (ok tt, record s { trace = c ∷ s.trace })

  -- test_core/lib/include.h
  pub report : CString → List ℕ → G (Unit {0})
  unfolding call emit
  report format args = do
    piped ← gets (λ s. s.testpipe)
    written ← call (Call.message format args)
    if piped then (if is_neg written then stop exit else emit (Call.usleep 10000)) else done

  -- `ghp = ...`, and whether the address is MAP_FAILED: the `int` that is returned
  keep : ℤ → G ℤ
  keep addr = do
    puts (λ s. record s { ghp = as_word addr })
    pure (if is_minus_one addr then pos 1 else pos 0)

  pub do_allocate_anon : G ℤ
  unfolding call keep
  do_allocate_anon = do
    size ← gets (λ s. s.size)
    let flags = bit_or (bit_or map_private_anonymous map_hugetlb) size_flag
    addr ← call (Call.mmap addr_input size protflag flags (negsuc 0) 0)
    keep addr

  pub do_free_anon : G (Unit {0})
  unfolding emit
  do_free_anon = do s ← gets (λ s. s); emit (Call.munmap s.ghp s.size)

  -- `if (ghfd <= 0)`
  is_closed : ℤ → Bool
  is_closed fd = is_neg fd || is_zero fd

  map_testfile : G ℤ
  unfolding call keep
  map_testfile = do
    s ← gets (λ s. s)
    addr ← call (Call.mmap addr_input s.size protflag map_shared s.ghfd 0)
    keep addr

  pub do_allocate_file : G ℤ
  unfolding call emit is_closed map_testfile
  do_allocate_file = do
    old ← gets (λ s. s.ghfd)
    if is_closed old
        then (do
          fd ← call (Call.create_rw (codes "tmp/hugetlbfs/testfile"))
          puts (λ s. record s { ghfd = fd })
          if is_minus_one fd then pure (pos 1) else (do emit (Call.pwrite fd 8192 0); map_testfile))
        else map_testfile

  pub do_free_file : G (Unit {0})
  unfolding emit
  do_free_file = do s ← gets (λ s. s); emit (Call.munmap s.ghp s.size)

  pub do_allocate_shmem : G ℤ
  unfolding call emit
  do_allocate_shmem = do
    shmid ← call (Call.shmget 0 1 (bit_or (bit_or shm_flags shm_hugetlb) size_flag))
    if is_neg shmid then pure (pos 1) else do
      addr ← call (Call.shmat shmid addr_input)
      puts (λ s. record s { ghp = as_word addr })
      if is_minus_one addr then (do emit (Call.shmctl_rmid shmid); pure (pos 1)) else pure (pos 0)

  -- With no type `strcmp` is given a null pointer.
  pub do_allocate : OpControl → G ℤ
  unfolding do_allocate_anon do_allocate_file do_allocate_shmem report
  do_allocate opc = do
    type ← present (opc_get_value opc (codes "type"))
    if str_eq type (codes "anon")
        then do_allocate_anon
        else if str_eq type (codes "file")
        then do_allocate_file
        else if str_eq type (codes "shmem")
        then do_allocate_shmem
        else (do report (codes "Invalid hugepage type: " ++ (type ++ codes "\n")) []; pure (pos 1))

  -- Whether a `pread` or `pwrite` moved 4096 bytes, as the `int` that is returned.
  moved : ℤ → ℤ
  moved (pos n) = if n == 4096 then pos 0 else pos 1
  moved (negsuc n) = pos 1

  pub access_by : (access : CString) → G ℤ
  unfolding call emit moved
  access_by access = do
    s ← gets (λ s. s)
    if str_eq access (codes "memread")
        then (do emit (Call.memread s.ghp 4096); pure (pos 0))
        else if str_eq access (codes "memwrite")
        then (do emit (Call.memset s.ghp s.size); pure (pos 0))
        else if str_eq access (codes "sysread")
        then (do r ← call (Call.pread s.ghfd 4096 0); pure (moved r))
        else if str_eq access (codes "syswrite")
        then (do r ← call (Call.pwrite s.ghfd 4096 0); pure (moved r))
        else pure (pos 0)

  pub do_access : OpControl → G ℤ
  unfolding access_by
  do_access opc = elim (opc_get_value opc (codes "type")) [
    | none ↦ access_by (codes "memwrite")
    | some access ↦ access_by access
  ]

  -- An advice that is none of the three leaves `ret` indeterminate.
  pub do_madvise : OpControl → G ℤ
  unfolding call
  do_madvise opc = do
    advice ← present (opc_get_value opc (codes "advice"))
    s ← gets (λ s. s)
    if str_eq advice (codes "hwpoison")
        then call (Call.madvise s.ghp 4096 Abi.Madv.hwpoison)
        else if str_eq advice (codes "soft-offline")
        then call (Call.madvise s.ghp 4096 Abi.Madv.soft_offline)
        else if str_eq advice (codes "dontneed")
        then call (Call.madvise s.ghp s.size Abi.Madv.dontneed)
        else call Call.no_return

  -- `while (flag)` with an allocation that can end it, as far as `rounds` rounds go.
  mapping_loop : (rounds : ℕ) → (allocate : G ℤ) → G (Unit {0})
  unfolding call emit
  mapping_loop zero allocate = stop running
  mapping_loop (suc rounds) allocate = do
    flag ← call Call.flag
    if is_zero flag then done else do
      ret ← allocate
      if not (is_zero ret) then done else do
        s ← gets (λ s. s)
        emit (Call.memset s.ghp s.size)
        emit (Call.munmap s.ghp s.size)
        mapping_loop rounds allocate

  iterate_type : (rounds : ℕ) → (type : CString) → G (Unit {0})
  unfolding mapping_loop report do_allocate_anon do_allocate_file
  iterate_type rounds type =
      if str_eq type (codes "anon")
      then mapping_loop rounds do_allocate_anon
      else if str_eq type (codes "file")
      then mapping_loop rounds do_allocate_file
      else if str_eq type (codes "shmem")
      then report (codes "Not implemented yet for hugepage type: " ++ (type ++ codes "\n")) []
      else report (codes "Invalid hugepage type: " ++ (type ++ codes "\n")) []

  -- The function ends with no `return`.
  pub do_iterate_mapping : (rounds : ℕ) → OpControl → G ℤ
  unfolding iterate_type call
  do_iterate_mapping rounds opc = do
    type ← present (opc_get_value opc (codes "type"))
    iterate_type rounds type
    call Call.no_return

  pub do_fork : G ℤ
  unfolding call emit report
  do_fork = do
    pid ← call Call.fork
    if is_zero pid then (do ghp ← gets (λ s. s.ghp); emit (Call.load ghp); emit Call.pause) else (do
      report (codes "forked %d\n") (as_word pid ∷ [])
      status ← call Call.wait
      report (codes "child exited %d\n") (as_word status ∷ []))
    call Call.no_return

  -- `back` is 0, so the mapping always moves up; `ghp` keeps the old address.
  pub do_mremap : G ℤ
  unfolding call report
  do_mremap = do
    s ← gets (λ s. s)
    report (codes "mremap p:%p -> %p\n") (add64 s.ghp s.size ∷ s.ghp ∷ [])
    new ← call (Call.mremap s.ghp s.size (add64 s.ghp s.size))
    report (codes "new %p\n") (as_word new ∷ [])
    pure (if is_minus_one new then negsuc 0 else pos 0)
