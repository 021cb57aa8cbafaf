-- ===== src/TestCore.antt =====
-- test_core/lib/include.h: the sizes of huge pages, semaphores, pipes, and advice on memory. The
-- names in the directory of huge page sizes are a parameter: `none` where it cannot be opened.
pub mod Sizes
pub mod Tests
use mm_regression.Base.{
  ℕ, zero, suc, ◌+◌, ◌*◌, ◌-◌, ◌%◌, ◌^◌, List, [], ◌∷◌, Option, none, some, Bool, true, false, ltb,
  ◌==◌, length, if◌then◌else◌,
}
use mm_regression.Base.Int.{ℤ, pos, negsuc, is_neg, is_zero, is_minus_one}
use mm_regression.Base.Text.{CString, codes}
use mm_regression.Libc.{strncmp_eq, atol}
use mm_regression.Abi
use mm_regression.Machine.{
  Call, Kernel, exit, fault, M, pure, stop, ◌>>=◌, ◌>>◌, done, call, emit, mul64,
}

-- `atol(name + 10) * 1024`
abbrev pub size_in_name : CString → ℕ
size_in_name (a ∷ b ∷ c ∷ d ∷ e ∷ f ∷ g ∷ h ∷ i ∷ j ∷ size) = mul64 (atol size) 1024
size_in_name name = 0

abbrev pub is_size : CString → Bool
is_size name = strncmp_eq 10 name (codes "hugepages-")

sizes_in : List CString → List ℕ
sizes_in [] = []
sizes_in (name ∷ names) =
    let rest = sizes_in names in if is_size name then size_in_name name ∷ rest else rest

-- What is stored in `hpsizes`; the result is how many.
pub get_hugepage_sizes : (dir : Option (List CString)) → List ℕ
unfolding sizes_in
get_hugepage_sizes none = []
get_hugepage_sizes (some names) = sizes_in names

-- The loop that ends at the size.
find_size : (hpsize : ℕ) → List ℕ → Bool
find_size hpsize [] = false
find_size hpsize (size ∷ sizes) =
    let rest = find_size hpsize sizes in if hpsize == size then true else rest

-- The array has 16 elements. The message that is built for a size that is not found is left out.
pub validate_hugepage_size : (dir : Option (List CString)) → (hpsize : ℕ) → M (Unit {0})
unfolding find_size
validate_hugepage_size dir hpsize =
    let sizes = get_hugepage_sizes dir in
    if ltb 16 (length sizes) then stop fault else if find_size hpsize sizes then done else stop exit

module _ (kernel : Kernel) where
  pub set_mergeable : (ptr size : ℕ) → M (Unit {0})
  set_mergeable ptr size = emit kernel (Call.madvise ptr size Abi.Madv.mergeable)

  pub clear_mergeable : (ptr size : ℕ) → M (Unit {0})
  clear_mergeable ptr size = emit kernel (Call.madvise ptr size Abi.Madv.unmergeable)

  pub set_hugepage : (ptr size : ℕ) → M (Unit {0})
  set_hugepage ptr size = emit kernel (Call.madvise ptr size Abi.Madv.hugepage)

  pub clear_hugepage : (ptr size : ℕ) → M (Unit {0})
  clear_hugepage ptr size = emit kernel (Call.madvise ptr size Abi.Madv.nohugepage)

  -- A semaphore with the value 1; one that cannot be set up ends the process.
  pub create_and_init_semaphore : M ℤ
  create_and_init_semaphore = do
    sem ← call kernel Call.semget
    if is_minus_one sem then stop exit else do
      r ← call kernel (Call.semctl_set sem 1)
      if is_minus_one r then stop exit else pure sem

  pub delete_semaphore : (sem : ℤ) → M ℤ
  delete_semaphore sem = call kernel (Call.semctl_rmid sem)

  pub get_semaphore : (sem : ℤ) → M ℤ
  get_semaphore sem = call kernel (Call.semop sem (negsuc 0))

  pub put_semaphore : (sem : ℤ) → M ℤ
  put_semaphore sem = call kernel (Call.semop sem (pos 1))

  -- `sizeof(str)` is the size of a pointer, so that at most 8 bytes are read.
  pub checked_read : (fd : ℤ) → M ℤ
  checked_read fd = do r ← call kernel (Call.read fd 8); if is_neg r then stop exit else pure r

  pub checked_write : (fd : ℤ) → CString → M ℤ
  checked_write fd str = do
    r ← call kernel (Call.write_text (if is_zero fd then pos 1 else fd) str)
    if is_neg r then stop exit else pure r

  checked_close : ℤ → M (Unit {0})
  checked_close fd = do r ← call kernel (Call.close fd); if is_neg r then stop exit else done

  -- `testpipe` is `none` with no -p; the path that `open` is given is null then, and `open` fails.
  open_pipe : (testpipe : Option CString) → M ℤ
  open_pipe none = stop exit
  open_pipe (some path) = do
    fd ← call kernel (Call.open_ro path)
    if is_neg fd then stop exit else pure fd

  -- The number of bytes, at most 8 for the same reason as above.
  pub pipe_read : (testpipe : Option CString) → M ℤ
  unfolding open_pipe checked_close
  pipe_read testpipe = do
    fd ← open_pipe testpipe
    flags ← call kernel (Call.fcntl_getfl fd)
    emit kernel (Call.fcntl_nonblock fd flags)
    r ← call kernel (Call.read fd 8)
    checked_close fd
    pure r
