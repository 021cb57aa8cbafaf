-- ===== src/Programs/Sample.antt =====
-- test_core/sample_test/lib/test_sample.c: the program of the sample test, which maps an area and
-- writes it until SIGUSR1 arrives. The options are a list of the letters and arguments that `getopt`
-- hands out; `argv0` is the name of the program.
use mm_regression.Base.{
  ℕ, zero, suc, ◌-◌, ◌*◌, ◌%◌, ◌^◌, List, [], ◌∷◌, ◌++◌, Option, Bool, true, false, ltb, ◌==◌, ◌&&◌,
  bit_and, bit_or, if◌then◌else◌,
}
use mm_regression.Base.Int.{negsuc, is_zero}
use mm_regression.Base.Text.{CString, codes, str_eq}
use mm_regression.Libc.{strtoul_decimal}
use mm_regression.Abi.{
  ps, addr_input, protflag, map_shared, map_private, map_anonymous, map_hugetlb,
}
use mm_regression.Chunk.{checked_mmap}
use mm_regression.TestCore.{validate_hugepage_size}
use mm_regression.Wait.{pprintf}
use mm_regression.Machine.{
  Call, Kernel, M, exit, fault, running, pure, stop, ◌>>=◌, ◌>>◌, done, puts, call, emit, sext,
  mul64,
}

-- `HPS` and the locals of `main`; an `int` is its 32 bits.
pub record Options : Type 0 where
  pub hps : ℕ
  pub nr : ℕ
  pub mapflag : ℕ
  pub reserveonly : Bool

abbrev pub defaults : Options
defaults = record {
  hps = 0;
  nr = 2;
  mapflag = bit_or map_anonymous map_shared;
  reserveonly = false;
}

-- `x & ~bits` of an `int`
clear : (bits x : ℕ) → ℕ
clear bits x = bit_and x (2 ^ 32 - 1 - bits)

module _ (kernel : Kernel) where
  -- The argument of -m.
  pub set_mode : (optarg : CString) → Options → M Options
  unfolding clear
  set_mode optarg o =
      if str_eq optarg (codes "private")
      then pure (record o { mapflag = clear map_shared (bit_or o.mapflag map_private) })
      else if str_eq optarg (codes "shared")
      then pure (record o { mapflag = bit_or o.mapflag map_shared })
      else stop exit

  pub read_option : (letter : ℕ) → (optarg : CString) → Options → M Options
  unfolding set_mode
  read_option letter optarg o =
      if letter == b'h'
      then pure (record o {
        hps = mul64 (strtoul_decimal optarg) 1024 % 2 ^ 32;
        mapflag = bit_or o.mapflag map_hugetlb;
      })
      else if letter == b'r'
      then pure (record o { reserveonly = true })
      else if letter == b'm'
      then set_mode optarg o
      else if letter == b'p'
      then (do
        puts (λ s. record s { testpipe = true })
        fifo ← call kernel (Call.is_fifo optarg)
        if is_zero fifo then stop exit else pure o)
      else if letter == b'n'
      then pure (record o { nr = strtoul_decimal optarg % 2 ^ 32 })
      else pure o

  pub read_options : List (ℕ × CString) → Options → M Options
  unfolding read_option
  read_options [] o = pure o
  read_options ((letter, optarg) ∷ options) o = do
    o' ← read_option letter optarg o
    read_options options o'

  -- `memsize`. The product with HPS is an `int`, whose overflow is undefined; a negative `nr` makes it
  -- a size that no mapping has, which is not modelled: `fault`.
  pub size_of : (dir : Option (List CString)) → Options → M ℕ
  size_of dir o =
      if ltb 0 o.hps && ltb o.hps (2 ^ 31)
      then (do
        validate_hugepage_size dir o.hps
        if ltb o.nr (2 ^ 31) && ltb (o.nr * o.hps) (2 ^ 31)
            then pure (o.nr * o.hps)
            else stop fault)
      else pure (mul64 (sext o.nr) ps)

  write_area : Options → (p size : ℕ) → M (Unit {0})
  write_area o p size = if o.reserveonly then done else emit kernel (Call.memset p size)

  busy_loop : (rounds : ℕ) → Options → (p size : ℕ) → M (Unit {0})
  unfolding write_area
  busy_loop zero o p size = stop running
  busy_loop (suc rounds) o p size = do
    up ← call kernel Call.flag
    if is_zero up
        then done
        else (do emit kernel (Call.usleep 1000); write_area o p size; busy_loop rounds o p size)

  -- `exit(EXIT_SUCCESS)` is the return.
  pub main :
      (rounds : ℕ) (dir : Option (List CString)) (argv0 : CString) (options : List (ℕ × CString))
      → M (Unit {0})
  unfolding read_options size_of write_area busy_loop
  main rounds dir argv0 options = do
    o ← read_options options defaults
    emit kernel Call.signal_sigusr1
    size ← size_of dir o
    p ← checked_mmap kernel addr_input size protflag o.mapflag (negsuc 0) 0
    write_area o p size
    emit kernel Call.signal_sigusr1
    pprintf kernel (codes "busy loop to check pageflags\n") []
    busy_loop rounds o p size
    pprintf kernel (argv0 ++ codes " exit\n") []
    emit kernel Call.pause
