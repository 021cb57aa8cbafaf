-- ===== src/Machine.antt =====
-- The process that runs the operations of lib/include.h: its globals, the system calls it makes,
-- and the ways in which a function of the source can end.
pub mod Post
pub mod Bare
pub mod Ends
pub mod Samples
pub mod Total
pub mod Touched
use mm_regression.Base.{
  ℕ, zero, suc, ◌+◌, ◌-◌, ◌*◌, ◌%◌, ◌^◌, List, ◌∷◌, Option, none, some, Bool, get_elem?, set, ltb,
  ◌==◌, if◌then◌else◌, length,
}
use mm_regression.Base.Int.{ℤ, pos, negsuc}
use mm_regression.Base.Text.{CString}

-- A call that leaves the process. What it returns is the kernel's choice. Flags, protections,
-- advices and modes are the numbers of the Linux ABI; an address is a number.
pub data Call : Type 0 where
  mmap : (addr size prot flags : ℕ) → (fd : ℤ) → (offset : ℕ) → Call
  munmap : (addr size : ℕ) → Call
  madvise : (addr size advice : ℕ) → Call
  mlock munlock mlock2 : (addr size : ℕ) → Call
  mprotect : (addr size prot : ℕ) → Call
  mbind : (addr size mode nodes flags : ℕ) → Call
  move_pages : (addrs : List ℕ) → (node flags : ℕ) → Call
  mremap : (from size to : ℕ) → Call
  sync_file_range : (fd : ℤ) → (offset size : ℕ) → Call
  process_vm_readv : (pid : ℤ) → (areas : List (ℕ × ℕ)) → Call
  shmget : (key size flags : ℕ) → Call
  shmat : (id : ℤ) → (addr : ℕ) → Call
  shmdt : (addr : ℕ) → Call
  shmctl_rmid : (id : ℤ) → Call
  -- `c = p[i]`, `p[i] = 'a'`, and `memset` and `memcpy` to and from memory under test
  load store : (addr : ℕ) → Call
  memset memread : (addr size : ℕ) → Call
  pread pwrite : (fd : ℤ) → (size offset : ℕ) → Call
  write : (fd : ℤ) → (size : ℕ) → Call
  fallocate : (fd : ℤ) → (mode offset size : ℕ) → Call
  fsync close : (fd : ℤ) → Call
  unlink : CString → Call
  mkdir : CString → Call
  -- a reading of `errno`
  errno : Call
  access : CString → Call
  open_rw create_rw : CString → Call
  fork : Call
  waitpid : (pid : ℤ) → Call
  -- the status that `wait` stores
  wait pause : Call
  set_mempolicy : (mode nodes : ℕ) → Call
  numa_node_to_cpus sched_setaffinity_node : (node : ℕ) → Call
  prctl_mce_kill : (policy : ℕ) → Call
  sysconf_phys_pages sysconf_pagesize : Call
  random : Call
  usleep : ℕ → Call
  -- the last number of a sysfs file, and of the last lines of /proc/zoneinfo with a number
  read_block_size zoneinfo_spanned zoneinfo_start_pfn : Call
  -- `pread` of `count` words of /proc/kpageflags from the page `index` on
  pread_kpageflags : (index count : ℕ) → Call
  pread_pagemap pread_kpagecount : (index count : ℕ) → Call
  open_kpageflags open_kpagecount : Call
  open_pagemap : (pid : ℕ) → Call
  open_wo : CString → Call
  write_text : (fd : ℤ) → CString → Call
  getpid getpagesize : Call
  system : CString → Call
  -- a line that `pprintf` hands to the controlling script
  message : (format : CString) → (args : List ℕ) → Call
  -- SIGUSR1 is caught, and handled as before
  sigaction_set sigaction_restore : Call
  -- `pprintf_wait_flag = 1`
  set_wait_flag : Call
  -- a reading of `pprintf_wait_flag`: 0 once SIGUSR1 has arrived
  wait_flag : Call
  -- a reading of `flag`, which a handler of SIGUSR1 clears
  flag : Call
  open_ro : CString → Call
  read : (fd : ℤ) → (size : ℕ) → Call
  fcntl_getfl : (fd : ℤ) → Call
  fcntl_nonblock : (fd flags : ℤ) → Call
  semget : Call
  semctl_set : (sem : ℤ) → (value : ℕ) → Call
  semctl_rmid : (sem : ℤ) → Call
  semop : (sem op : ℤ) → Call
  -- what `lstat` says of a path: 0 for no pipe
  is_fifo : CString → Call
  numa_max_node : Call
  -- the handlers that a program sets once
  signal_sigusr1 sigaction_sigbus : Call
  mincore : (addr size : ℕ) → Call
  -- the attributes of a file, and the type of a file as `fstat` tells it
  ioctl_getflags : (fd : ℤ) → Call
  ioctl_setflags : (fd : ℤ) → (flags : ℕ) → Call
  fstat_is_regular statx : (fd : ℤ) → Call
  -- the attributes that `ioctl_getflags` has stored
  stored_flags : (fd : ℤ) → Call
  prctl_dumpable : Call
  stat : CString → Call
  -- `pipe`, and the descriptor of its end for writing
  pipe pipe_write_end : Call
  splice : (from to : ℤ) → (size flags : ℕ) → Call
  -- `move_pages` with arrays that may be indeterminate in part: `none` is such an element, and no
  -- array of nodes is a null pointer
  move_pages_of :
      (pid : ℕ)
      → (addrs : List (Option ℕ)) → (nodes : Option (List (Option ℕ))) → (flags : ℕ) → Call
  -- the indeterminate `int` of a function that ends with no `return`
  no_return : Call

-- The documented meaning of the kernel is not modelled: it is any function from the calls made
-- so far (latest first) and the call at hand to the call's result.
abbrev pub Kernel : Type 0
Kernel = List Call → Call → ℤ

-- `struct mem_chunk`
pub record MemChunk : Type 0 where
  pub mem_type : ℕ
  pub chunk_size : ℕ
  pub p : ℕ
  pub shmkey : ℤ
  pub offset : ℕ

-- The globals, with the calls made so far.
pub record State : Type 0 where
  pub backend_bitmap : ℕ
  pub nr_p : ℕ
  pub nr_chunk : ℕ
  pub nr_mem_types : ℕ
  pub chunkset : List MemChunk
  pub nr_nodes : ℕ
  pub fd : ℤ
  pub hugetlbfd : ℤ
  pub shmkey : ℕ
  -- the node mask that the argument of the latest mbind operation points to
  pub new_nodes : ℕ
  pub workdir : CString
  -- `opt_mask` and `opt_bits`
  pub filters : List (ℕ × ℕ)
  pub memblk_size : ℕ
  pub memblk_order : ℕ
  -- `none` after -F
  pub filebase : Option CString
  -- whether a pipe was given by -p
  pub testpipe : Bool
  pub trace : List Call

-- `exit` is `exit(EXIT_FAILURE)` with or without a message, `fault` is undefined behaviour, and
-- `running` is a loop that has not ended after the rounds that were looked at.
pub data Result (A : Type 0) : Type 0 where
  ok : A → Result A
  exit fault running : Result A

-- Code over the globals `S`, and that of the process above.
abbrev pub Run : Type 0 → Type 0 → Type 0
Run S A = S → Result A × S

abbrev pub M : Type 0 → Type 0
M A = Run State A

module _ {S : Type 0} {A : Type 0} where
  abbrev pub pure : A → Run S A
  pure a s = (ok a, s)

  abbrev pub stop : Result A → Run S A
  stop r s = (r, s)

  abbrev pub gets : (S → A) → Run S A
  gets f s = (ok (f s), s)

  -- A null pointer or an element past the end of an array.
  abbrev pub present : Option A → Run S A
  present none s = (fault, s)
  present (some a) s = (ok a, s)

module _ {S : Type 0} {A B : Type 0} where
  abbrev pub and_then : Result A → (A → Run S B) → Run S B
  and_then (ok a) f s = f a s
  and_then exit f s = (exit, s)
  and_then fault f s = (fault, s)
  and_then running f s = (running, s)

  infixl 5 ◌>>=◌
  abbrev pub ◌>>=◌ : Run S A → (A → Run S B) → Run S B
  ◌>>=◌ m f s = and_then (m s).0 f (m s).1

module _ {S : Type 0} {B : Type 0} where
  infixl 5 ◌>>◌
  abbrev pub ◌>>◌ : Run S (Unit {0}) → Run S B → Run S B
  m >> k = m >>= λ _. k

module _ {S : Type 0} where
  abbrev pub done : Run S (Unit {0})
  done = pure tt

  abbrev pub puts : (S → S) → Run S (Unit {0})
  puts f s = (ok tt, f s)

module _ (kernel : Kernel) where
  unfoldable pub call : Call → M ℤ
  call c s = (ok (kernel s.trace c), record s { trace = c ∷ s.trace })

  -- a call whose result the source does not read
  unfoldable pub emit : Call → M (Unit {0})
  emit c s = (ok tt, record s { trace = c ∷ s.trace })

-- `&chunkset[k]`
unfoldable pub chunk_at : ℕ → M MemChunk
chunk_at k = λ s. present (get_elem? s.chunkset k) s

-- `chunkset[k] = c`
unfoldable pub set_chunk : ℕ → MemChunk → M (Unit {0})
set_chunk k c s =
    if ltb k (length s.chunkset)
    then (ok tt, record s { chunkset = set s.chunkset k c })
    else (fault, s)

-- An address or a length as the 64-bit word that it is.
abbrev pub as_word : ℤ → ℕ
as_word (pos n) = n
as_word (negsuc n) = 2 ^ 64 - 1 - n

-- A product of two nonnegative values of type `int`, whose overflow is undefined.
abbrev pub int_mul : ℕ → ℕ → M ℕ
int_mul a b s = if ltb (a * b) (2 ^ 31) then (ok (a * b), s) else (fault, s)

-- A text formatted into a buffer of `n` bytes with `sprintf`, or copied there with `strcpy`.
abbrev pub into_buffer : {S : Type 0} → ℕ → CString → Run S CString
into_buffer n t s = if ltb (length t) n then (ok t, s) else (fault, s)

-- The 64-bit word of a 32-bit `int` that is kept in the low half of `x`.
abbrev pub sext : ℕ → ℕ
sext x = if ltb (x % 2 ^ 32) (2 ^ 31) then x % 2 ^ 32 else 2 ^ 64 - 2 ^ 32 + x % 2 ^ 32

-- Addresses and unsigned words.
abbrev pub add64 : ℕ → ℕ → ℕ
add64 a b = (a + b) % 2 ^ 64

abbrev pub sub64 : ℕ → ℕ → ℕ
sub64 a b = (a + (2 ^ 64 - b % 2 ^ 64)) % 2 ^ 64

abbrev pub mul64 : ℕ → ℕ → ℕ
mul64 a b = a * b % 2 ^ 64

-- A body that is run a number of times, with the index of the round.
unfoldable pub times : (left i : ℕ) → (ℕ → M (Unit {0})) → M (Unit {0})
times zero i body = done
times (suc left) i body = do body i; times left (i + 1) body

-- `int flag = 1`, a global that nothing writes
abbrev pub flag_value : ℕ
flag_value = 1

-- `while (flag)`, as far as `rounds` rounds go.
unfoldable pub while_flag : (rounds : ℕ) → M (Unit {0}) → M (Unit {0})
while_flag zero body = stop running
while_flag (suc rounds) body = if flag_value == 0 then done else (do body; while_flag rounds body)
