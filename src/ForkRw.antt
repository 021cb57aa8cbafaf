-- ===== src/ForkRw.antt =====
-- lib/hugetlb_fork_rw.c: a parent poisons a huge page that it shares with its child, and tells from
-- the exit status of the child whether the child got over it. The state is the list of calls made
-- so far; what the program prints is left out.
pub mod Status
pub mod Tests
use mm_regression.Base.{
  ℕ, ◌+◌, ◌*◌, ◌/◌, ◌%◌, ◌-◌, ◌^◌, List, [], ◌∷◌, Option, none, some, Bool, true, false, not, ◌==◌,
  get_elem?, bit_or, if◌then◌else◌,
}
use mm_regression.Base.Int.{ℤ, pos, negsuc, is_neg, is_zero, is_minus_one}
use mm_regression.Base.Text.{CString, codes, str_eq}
use mm_regression.Abi
use mm_regression.Abi.{ps, hps, addr_input, protflag, map_shared, shm_flags, shm_hugetlb}
use mm_regression.Machine.{
  Call, Kernel, Run, ok, exit, pure, stop, ◌>>=◌, ◌>>◌, present, as_word, sext,
}

abbrev pub R : Type 0 → Type 0
R A = Run (List Call) A

-- `return -1`
abbrev pub failure : ℤ
failure = negsuc 0

abbrev pub gps : ℕ
gps = 0x40000000

-- What the first part of `main` leaves in `addr`, `fd` and `shmkey`.
pub record Shared : Type 0 where
  pub addr : ℕ
  pub fd : ℤ
  pub shmkey : ℤ

-- `HPS` of the environment
pub page_size : Option CString → ℕ
page_size none = hps
page_size (some size) = if str_eq size (codes "1GB") then gps else hps

-- `WIFEXITED(wstatus)` and `WEXITSTATUS(wstatus)`
code_of : (wstatus : ℕ) → ℤ
code_of wstatus =
    if wstatus % 128 == 0 then (if wstatus / 256 % 256 == 0 then pos 0 else pos 2) else pos 1

module _ (kernel : Kernel) where
  call : Call → R ℤ
  call c t = (ok (kernel t c), c ∷ t)

  emit : Call → R (Unit {0})
  emit c t = (ok tt, c ∷ t)

  -- `memset` of a page that may be poisoned. The kernel says whether SIGBUS kills the process
  -- there, in which case the result is `exit`.
  touch : (addr size : ℕ) → R (Unit {0})
  unfolding call
  touch addr size = do
    r ← call (Call.memset addr size)
    if is_minus_one r then stop exit else pure tt

  -- The address and the identifier of a segment; `none` is `return -1`.
  attach : (size : ℕ) → (key : ℤ) → R (Option (ℕ × ℤ))
  unfolding call emit
  attach size key = do
    shmid ← call (Call.shmget (as_word key) size (bit_or shm_flags shm_hugetlb))
    if is_neg shmid then pure none else do
      addr ← call (Call.shmat shmid addr_input)
      if is_minus_one addr
          then (do emit (Call.shmctl_rmid shmid); pure none)
          else if not (as_word addr == addr_input)
          then (do emit (Call.shmctl_rmid shmid); pure none)
          else pure (some (as_word addr, shmid))

  -- `fd` is indeterminate with shared memory.
  share : (size : ℕ) → (kind : CString) → R (Option Shared)
  unfolding call attach
  share size kind =
      if str_eq kind (codes "shmem")
      then (do
        any ← call Call.no_return
        attached ← attach size (pos 0)
        elim attached [
          | none ↦ pure none
          | some (addr, shmid) ↦ pure (some (record { addr = addr; fd = any; shmkey = shmid }))
        ])
      else (do
        fd ← call (Call.open_rw kind)
        if is_minus_one fd then pure none else do
          addr ← call (Call.mmap addr_input size protflag map_shared fd 0)
          pure (some (record { addr = as_word addr; fd = fd; shmkey = pos 0 })))

  -- `if (ret) return errno; ... return 0`
  errno_unless_zero : (ret : ℤ) → R ℤ
  unfolding call
  errno_unless_zero ret = if is_zero ret then pure (pos 0) else call Call.errno

  -- `buf` is an array on the stack.
  without_fork : (size buf : ℕ) → Shared → (argv3 : Option CString) → R ℤ
  unfolding call emit errno_unless_zero
  without_fork size buf m argv3 = do
    emit (Call.madvise buf ps 0)
    mode ← present argv3
    if str_eq mode (codes "read")
        then (do ret ← call (Call.pread m.fd ps 0); errno_unless_zero ret)
        else if str_eq mode (codes "write")
        then (do ret ← call (Call.pwrite m.fd ps 0); errno_unless_zero ret)
        else if str_eq mode (codes "mmap")
        then (do emit (Call.memset m.addr size); pure (pos 0))
        else pure (pos 0)

  pub parent : (size : ℕ) → Shared → R ℤ
  unfolding call emit code_of
  parent size m = do
    emit (Call.memset m.addr size)
    emit (Call.madvise m.addr ps Abi.Madv.hwpoison)
    wstatus ← call Call.wait
    pure (code_of (as_word wstatus))

  -- The page is poisoned, and punching a hole over it makes it readable again.
  child_sysrw : (size : ℕ) → Shared → R ℤ
  unfolding call emit
  child_sysrw size m = do
    ret ← call (Call.pread m.fd ps 0)
    if not (is_minus_one ret) then pure failure else do
      ret' ← call (Call.fallocate m.fd 3 0 size)
      if is_minus_one ret' then pure failure else do
        ret'' ← call (Call.pread m.fd ps 0)
        if is_minus_one ret'' then pure failure else pure (pos 0)

  fill_attached : (size : ℕ) → Option (ℕ × ℤ) → R ℤ
  unfolding touch
  fill_attached size none = pure failure
  fill_attached size (some (addr, shmid)) = do touch addr size; pure (pos 0)

  child_mmap_again : (size : ℕ) → (kind : CString) → Shared → R ℤ
  unfolding call touch attach fill_attached
  child_mmap_again size kind m =
      if str_eq kind (codes "shmem")
      then (do attached ← attach size m.shmkey; fill_attached size attached)
      else (do
        fd ← call (Call.open_rw kind)
        if is_minus_one fd then pure failure else do
          addr ← call (Call.mmap (addr_input + size) size protflag map_shared fd 0)
          if not (as_word addr == addr_input + size)
              then pure failure
              else do touch (as_word addr) size; pure (pos 0))

  pub child : (size : ℕ) → (kind mode : CString) → Shared → R ℤ
  unfolding emit touch child_sysrw child_mmap_again
  child size kind mode m = do
    emit (Call.usleep 1000000)
    if str_eq mode (codes "sysrw")
        then child_sysrw size m
        else if str_eq mode (codes "mmap_again")
        then child_mmap_again size kind m
        else (do touch m.addr size; pure (pos 0))

  forked : (size : ℕ) → (kind mode : CString) → Shared → R ℤ
  unfolding call parent child
  forked size kind mode m = do
    pid ← call Call.fork
    if is_zero pid then child size kind mode m else parent size m

  -- `argv` from `argv[0]` on; what is returned is the exit status of the process.
  pub main : (env : Option CString) → (buf : ℕ) → (argv : List CString) → R ℤ
  unfolding share without_fork forked
  main env buf [] = pure failure
  main env buf (program ∷ []) = pure failure
  main env buf (program ∷ kind ∷ args) = do
    let size = page_size env
    shared ← share size kind
    elim shared [
      | none ↦ pure failure
      | some m ↦ do
        mode ← present (get_elem? args 0)
        if str_eq mode (codes "nofork")
            then without_fork size buf m (get_elem? args 1)
            else forked size kind mode m
    ]
