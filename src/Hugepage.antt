-- ===== src/Hugepage.antt =====
-- lib/hugepage.h: huge pages of each kind, how a program gets and frees them, and the pattern by
-- which it tells whether their contents survived.
pub mod Mounts
pub mod Bytes
pub mod Pattern
pub mod Alloc
pub mod Tests
use mm_regression.Base.{
  ℕ, zero, suc, ◌+◌, ◌*◌, ◌%◌, ◌^◌, List, ◌∷◌, Bool, true, false, not, ◌==◌, ◌&&◌, ◌||◌, bit_or,
  ltb, Option, some, none, if◌then◌else◌,
}
use mm_regression.Base.Int.{ℤ, pos, negsuc, is_neg, is_zero, is_minus_one}
use mm_regression.Base.Text.{CString}
use mm_regression.Abi.{
  protflag, map_shared, map_private, map_anonymous, map_hugetlb, shm_flags, shm_hugetlb,
}
use mm_regression.Machine.{
  Call, Kernel, Run, ok, exit, pure, stop, ◌>>=◌, ◌>>◌, done, gets, puts, as_word, add64,
}

-- The bytes of the memory.
abbrev pub Memory : Type 0
Memory = ℕ → ℕ

abbrev pub store : Memory → ℕ → ℕ → Memory
store mem a v = λ b. if b == a then v else mem b

-- `'a' + ((i + j) % 26)`
abbrev pub expected : (i j : ℕ) → ℕ
expected i j = b'a' + (i + j) % 26

-- `hps` is the variable HPSIZE.
module _ (hps addr : ℕ) where
  -- `addr + i * HPS + j`
  abbrev pub byte_address : (i j : ℕ) → ℕ
  byte_address i j = add64 addr (i * hps + j)

  pub write_bytes : (i left j : ℕ) → Memory → Memory
  write_bytes i zero j mem = mem
  write_bytes i (suc left) j mem =
      write_bytes i left (j + 1) (store mem (byte_address i j) (expected i j))

  pub write_pages : (avoid_addr left i : ℕ) → Memory → Memory
  unfolding write_bytes
  write_pages avoid_addr zero i mem = mem
  write_pages avoid_addr (suc left) i mem =
      write_pages avoid_addr left (i + 1)
        (if byte_address i 0 == avoid_addr then mem else write_bytes i hps 0 mem)

  -- `i`, `j` and `i + j` are of type `int`: `j` counts to HPS, and `i + j` to the sum below. Ranges
  -- for which one of these does not fit are not modelled: `none`.
  pub fits_int : (nr_hugepage : ℕ) → Bool
  fits_int nr_hugepage = ltb (nr_hugepage + hps) (2 ^ 31)

  pub write_hugepage : (nr_hugepage avoid_addr : ℕ) → Memory → Option Memory
  unfolding write_pages fits_int
  write_hugepage nr_hugepage avoid_addr mem =
      if fits_int nr_hugepage then some (write_pages avoid_addr nr_hugepage 0 mem) else none

  -- Whether the loop over a page ends with no mismatch.
  pub read_bytes : (i left j : ℕ) → Memory → Bool
  read_bytes i zero j mem = true
  read_bytes i (suc left) j mem =
      let rest = read_bytes i left (j + 1) mem in
      if mem (byte_address i j) == expected i j then rest else false

  read_pages : (avoid_addr left i : ℕ) → (ret : ℤ) → Memory → ℤ
  unfolding read_bytes
  read_pages avoid_addr zero i ret mem = ret
  read_pages avoid_addr (suc left) i ret mem =
      read_pages avoid_addr left (i + 1)
        (if byte_address i 0 == avoid_addr
          then ret
          else if read_bytes i hps 0 mem
          then ret
          else negsuc 0)
        mem

  pub read_hugepage : (nr_hugepage avoid_addr : ℕ) → Memory → Option ℤ
  unfolding read_pages fits_int
  read_hugepage nr_hugepage avoid_addr mem =
      if fits_int nr_hugepage then some (read_pages avoid_addr nr_hugepage 0 (pos 0) mem) else none

-- The globals of the file, with the calls made so far (latest first).
pub record HugeState : Type 0 where
  pub shmkey : ℤ
  pub hpfd : ℤ
  pub filepath : CString
  pub trace : List Call

abbrev pub H : Type 0 → Type 0
H A = Run HugeState A

module _ (kernel : Kernel) where
  pub call : Call → H ℤ
  call c s = (ok (kernel s.trace c), record s { trace = c ∷ s.trace })

  emit : Call → H (Unit {0})
  emit c s = (ok tt, record s { trace = c ∷ s.trace })

  -- The address; 0 is NULL. `size` is an `int` that is not negative.
  pub alloc_shm_hugepage : (size : ℕ) → H ℕ
  unfolding call emit
  alloc_shm_hugepage size = do
    key ← gets (λ s. s.shmkey)
    shmid ← call (Call.shmget (as_word key) size (bit_or shm_hugetlb shm_flags))
    if is_neg shmid then pure 0 else do
      addr ← call (Call.shmat shmid 0)
      if is_minus_one addr
          then (do emit (Call.shmctl_rmid shmid); pure 0)
          else (do puts (λ s. record s { shmkey = shmid }); pure (as_word addr))

  pub alloc_shm_hugepage2 : (size exp_addr : ℕ) → H ℕ
  unfolding call emit
  alloc_shm_hugepage2 size exp_addr = do
    key ← gets (λ s. s.shmkey)
    shmid ← call (Call.shmget (as_word key) size (bit_or shm_hugetlb shm_flags))
    if is_neg shmid then pure 0 else do
      addr ← call (Call.shmat shmid exp_addr)
      if is_minus_one addr || not (as_word addr == exp_addr)
          then (do emit (Call.shmctl_rmid shmid); stop exit)
          else (do puts (λ s. record s { shmkey = shmid }); pure (as_word addr))

  pub alloc_anonymous_hugepage : (size : ℕ) → (private : Bool) → (exp_addr : ℕ) → H ℕ
  unfolding call
  alloc_anonymous_hugepage size private exp_addr = do
    let mapflag = bit_or map_anonymous map_hugetlb
    let flags = bit_or mapflag (if private then map_private else map_shared)
    addr ← call (Call.mmap exp_addr size protflag flags (negsuc 0) 0)
    if is_minus_one addr
        then stop exit
        else if not (exp_addr == 0) && not (as_word addr == exp_addr)
        then stop exit
        else pure (as_word addr)

  pub alloc_filebacked_hugepage : (size : ℕ) → (private : Bool) → H ℕ
  unfolding call emit
  alloc_filebacked_hugepage size private = do
    let mapflag = if private then map_private else map_shared
    path ← gets (λ s. s.filepath)
    fd ← call (Call.create_rw path)
    puts (λ s. record s { hpfd = fd })
    if is_neg fd then pure 0 else do
      addr ← call (Call.mmap 0 size protflag mapflag fd 0)
      if is_minus_one addr then (do emit (Call.unlink path); pure 0) else pure (as_word addr)

  -- `if (!addr) errmsg(...)`
  unless_null : ℕ → H ℕ
  unless_null addr = if addr == 0 then stop exit else pure addr

  pub alloc_hugepage : (size hptype : ℕ) → (private : Bool) → H ℕ
  unfolding alloc_shm_hugepage alloc_anonymous_hugepage alloc_filebacked_hugepage unless_null
  alloc_hugepage size hptype private =
      if hptype == 2
      then (do addr ← alloc_shm_hugepage size; unless_null addr)
      else if hptype == 1
      then (do addr ← alloc_anonymous_hugepage size private 0; unless_null addr)
      else (do addr ← alloc_filebacked_hugepage size private; unless_null addr)

  pub free_shm_hugepage : (key : ℤ) → (addr : ℕ) → H ℤ
  unfolding call emit
  free_shm_hugepage key addr = do
    r ← call (Call.shmdt addr)
    emit (Call.shmctl_rmid key)
    pure (if is_zero r then pos 0 else negsuc 0)

  pub free_anonymous_hugepage : (addr size : ℕ) → H ℤ
  unfolding call
  free_anonymous_hugepage addr size = do
    r ← call (Call.munmap addr size)
    pure (if is_zero r then pos 0 else negsuc 0)

  -- `filepath` is an array, so the test on it always holds.
  pub free_filebacked_hugepage : (addr size : ℕ) → H ℤ
  unfolding call
  free_filebacked_hugepage addr size = do
    r ← call (Call.munmap addr size)
    fd ← gets (λ s. s.hpfd)
    c ← call (Call.close fd)
    path ← gets (λ s. s.filepath)
    u ← call (Call.unlink path)
    pure (if is_zero r && is_zero c && is_zero u then pos 0 else negsuc 0)

  exit_on_failure : ℤ → H (Unit {0})
  exit_on_failure r = if is_minus_one r then stop exit else done

  -- The function ends with no `return`; no caller reads a result.
  pub free_hugepage : (addr hptype size : ℕ) → H (Unit {0})
  unfolding free_shm_hugepage free_anonymous_hugepage free_filebacked_hugepage exit_on_failure
  free_hugepage addr hptype size =
      if hptype == 2
      then (do key ← gets (λ s. s.shmkey); r ← free_shm_hugepage key addr; exit_on_failure r)
      else if hptype == 1
      then (do r ← free_anonymous_hugepage addr size; exit_on_failure r)
      else (do r ← free_filebacked_hugepage addr size; exit_on_failure r)
