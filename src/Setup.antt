-- ===== src/Setup.antt =====
-- lib/test_alloc_generic.c: the options of the program and what it prepares from them, with the
-- files of lib/include.h. An option is the letter and the argument that `getopt` hands out.
pub mod Files
pub mod Names
pub mod Ready
pub mod Tests
use mm_regression.Base.{
  ℕ, ◌+◌, ◌-◌, ◌*◌, ◌%◌, ◌^◌, List, [], ◌∷◌, ◌++◌, Option, none, some, Bool, true, false, ltb, ◌==◌,
  not, ◌&&◌, bit_and, bit_or, replicate, if◌then◌else◌,
}
use mm_regression.Base.Int.{ℤ, pos, negsuc, is_minus_one, is_zero}
use mm_regression.Base.Text.{CString, codes, str_eq}
use mm_regression.Libc.{strtoul}
use mm_regression.Abi.{ps, protflag, map_shared, eexist}
use mm_regression.Backend
use mm_regression.Backend.{be, get_nr_mem_types}
use mm_regression.Parse.{Parsed, parse_operations}
use mm_regression.Chunk.{checked_mmap, nr_chunk_of}
use mm_regression.OperationLoop.{do_operation_loop}
use mm_regression.Memblock.{Pageflags}
use mm_regression.Machine.{
  Call, Kernel, MemChunk, State, exit, fault, M, pure, stop, ◌>>=◌, ◌>>◌, done, gets, puts, present,
  call, emit, into_buffer, int_mul, as_word, times,
}

-- The names that -B takes.
abbrev pub backend_names : List (CString × ℕ)
backend_names =
    (codes "pagecache", Backend.pagecache)
    ∷ (codes "anonymous", Backend.anonymous)
    ∷ (codes "thp", Backend.thp)
    ∷ (codes "hugetlb_anon", Backend.hugetlb_anon)
    ∷ (codes "hugetlb_shmem", Backend.hugetlb_shmem)
    ∷ (codes "hugetlb_file", Backend.hugetlb_file)
    ∷ (codes "ksm", Backend.ksm)
    ∷ (codes "zero", Backend.zero_page)
    ∷ (codes "huge_zero", Backend.huge_zero)
    ∷ (codes "normal_shmem", Backend.normal_shmem)
    ∷ (codes "devmem", Backend.devmem)
    ∷ []

-- The bits that one -B adds: those of a name, or of a number.
pub bits_of : CString → List (CString × ℕ) → ℕ
bits_of optarg [] = strtoul optarg
bits_of optarg ((name, type) ∷ names) =
    let rest = bits_of optarg names in if str_eq optarg name then be type else rest

-- -n and -N store an `int`. A count that is negative then is not modelled: `fault`.
pub set_nr_p : ℕ → M (Unit {0})
set_nr_p n =
    if ltb (n % 2 ^ 32) (2 ^ 31) then puts (λ s. record s { nr_p = n % 2 ^ 32 }) else stop fault

-- -L fills the array of operations.
set_operations : Parsed (List CString) → M (List CString)
set_operations (Parsed.ok ops) = pure ops
set_operations Parsed.unsupported = stop exit
set_operations Parsed.overrun = stop fault

-- A new element of the array of chunks: all bytes are 0.
abbrev pub zero_chunk : MemChunk
zero_chunk = record { mem_type = 0; chunk_size = 0; p = 0; shmkey = pos 0; offset = 0 }

module _ (kernel : Kernel) where
  pub create_workdir : CString → M (Unit {0})
  create_workdir dpath = do
    r ← call kernel (Call.mkdir dpath)
    if is_zero r then done else (do
      errno ← call kernel Call.errno
      if as_word errno == eexist then done else stop exit)

  -- A file that is not there is filled with `nr_p` pages.
  open_regular : (fpath : CString) → M (Unit {0})
  open_regular fpath = do
    found ← call kernel (Call.access fpath)
    new ← call kernel (if is_minus_one found then Call.create_rw fpath else Call.open_rw fpath)
    puts (λ s. record s { fd = new })
    if is_minus_one new
        then stop exit
        else if is_minus_one found
        then (do nr_p ← gets (λ s. s.nr_p); times nr_p 0 (λ _. emit kernel (Call.write new ps)))
        else done
    emit kernel (Call.fsync new)

  pub create_regular_file : CString → M (Unit {0})
  unfolding create_workdir open_regular
  create_regular_file filebase = do
    workdir ← gets (λ s. s.workdir)
    create_workdir workdir
    fpath ← into_buffer 256 (workdir ++ (codes "/" ++ filebase))
    open_regular fpath

  create_huge : (fpath : CString) → M (Unit {0})
  create_huge fpath = do
    new ← call kernel (Call.create_rw fpath)
    puts (λ s. record s { hugetlbfd = new })
    if is_minus_one new then stop exit else (do
      nr_p ← gets (λ s. s.nr_p)
      addr ← checked_mmap kernel 0 (nr_p * ps) protflag map_shared new 0
      emit kernel (Call.memset addr (nr_p * ps))
      emit kernel (Call.munmap addr (nr_p * ps)))

  hugetlbfs_file : (filebase : CString) → M (Unit {0})
  unfolding create_workdir create_huge
  hugetlbfs_file filebase = do
    workdir ← gets (λ s. s.workdir)
    dpath ← into_buffer 256 (workdir ++ codes "/hugetlbfs")
    fpath ← into_buffer 256 (dpath ++ (codes "/" ++ filebase))
    create_workdir dpath
    create_huge fpath

  -- With -F the name is a null pointer, which `sprintf` must not be given.
  pub create_hugetlbfs_file : M (Unit {0})
  unfolding hugetlbfs_file
  create_hugetlbfs_file = do
    base ← gets (λ s. s.filebase)
    filebase ← present base
    hugetlbfs_file filebase

  -- The last part of `setup`: the array of chunks. `malloc` is taken to succeed.
  pub allocate_chunks : M (Unit {0})
  allocate_chunks = do
    nr_p ← gets (λ s. s.nr_p)
    bitmap ← gets (λ s. s.backend_bitmap)
    nr_all_chunks ← int_mul (nr_chunk_of nr_p) (get_nr_mem_types bitmap)
    puts λ s. record s {
      nr_chunk = nr_chunk_of nr_p;
      nr_mem_types = get_nr_mem_types bitmap;
      chunkset = replicate nr_all_chunks zero_chunk;
    }

  -- /dev/mem goes with no other type, and takes one page.
  pub check_devmem : M (Unit {0})
  check_devmem = do
    bitmap ← gets (λ s. s.backend_bitmap)
    if bit_and bitmap (be Backend.devmem) == 0
        then done
        else if not (bit_and bitmap (2 ^ 64 - 1 - be Backend.devmem) == 0)
        then stop exit
        else puts (λ s. record s { nr_p = 1 })

  regular_if_chosen : (filebase : Option CString) → (bitmap : ℕ) → M (Unit {0})
  unfolding create_regular_file
  regular_if_chosen none bitmap = done
  regular_if_chosen (some filebase) bitmap =
      if bit_and bitmap (be Backend.pagecache) == 0 then done else create_regular_file filebase

  huge_if_chosen : (bitmap : ℕ) → M (Unit {0})
  unfolding create_hugetlbfs_file
  huge_if_chosen bitmap =
      if bit_and bitmap (be Backend.hugetlb_file) == 0 then done else create_hugetlbfs_file

  pub create_files : M (Unit {0})
  unfolding regular_if_chosen huge_if_chosen
  create_files = do
    bitmap ← gets (λ s. s.backend_bitmap)
    base ← gets (λ s. s.filebase)
    regular_if_chosen base bitmap
    huge_if_chosen bitmap

  pub setup : M (Unit {0})
  unfolding create_files check_devmem allocate_chunks
  setup = do create_files; check_devmem; allocate_chunks

  -- One option; `ops` are the operations of the last -L.
  pub read_option : (letter : ℕ) → (optarg : CString) → (ops : List CString) → M (List CString)
  unfolding bits_of set_nr_p set_operations
  read_option letter optarg ops =
      if letter == b'v'
      then pure ops
      else if letter == b'p'
      then (do
        puts (λ s. record s { testpipe = true })
        fifo ← call kernel (Call.is_fifo optarg)
        if is_zero fifo then stop exit else pure ops)
      else if letter == b'n'
      then (do set_nr_p (strtoul optarg); pure ops)
      else if letter == b'N'
      then (do set_nr_p (strtoul optarg * 512); pure ops)
      else if letter == b'B'
      then (do
        puts λ s. record s {
          backend_bitmap = bit_or s.backend_bitmap (bits_of optarg backend_names);
        }
        pure ops)
      else if letter == b'L'
      then set_operations (parse_operations optarg)
      else if letter == b'f'
      then (do puts (λ s. record s { filebase = some optarg }); pure ops)
      else if letter == b'F'
      then (do puts (λ s. record s { filebase = none }); pure ops)
      else if letter == b'w'
      then (do puts (λ s. record s { workdir = optarg }); pure ops)
      else if letter == b's'
      then (do emit kernel Call.sigaction_sigbus; pure ops)
      else stop exit

  pub read_options : List (ℕ × CString) → (ops : List CString) → M (List CString)
  unfolding read_option
  read_options [] ops = pure ops
  read_options ((letter, optarg) ∷ options) ops = do
    ops' ← read_option letter optarg ops
    read_options options ops'

  -- `op_strings` is an array, so the test on it before the loop is always true.
  pub main : (rounds : ℕ) → (words : Pageflags) → List (ℕ × CString) → M (Unit {0})
  unfolding read_options setup
  main rounds words options = do
    node ← call kernel Call.numa_max_node
    puts (λ s. record s { nr_nodes = as_word node + 1 })
    emit kernel Call.signal_sigusr1
    ops ← read_options options []
    setup
    do_operation_loop kernel rounds words ops
