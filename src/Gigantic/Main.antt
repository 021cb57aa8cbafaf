-- ===== src/Gigantic/Main.antt =====
-- lib/hugetlb_1gb.c: the waits around an operation, the loop over the operations, and `main`.
-- An option is the letter and the argument that `getopt` hands out.
use mm_regression.Base.{
  ℕ, zero, suc, ◌+◌, ◌%◌, ◌^◌, List, [], ◌∷◌, ◌++◌, Option, none, some, Bool, true, false, ◌==◌,
  get_elem?, if◌then◌else◌,
}
use mm_regression.Base.Int.{ℤ, pos, is_zero}
use mm_regression.Base.Text.{CString, codes, str_eq}
use mm_regression.Libc.{strtoul, strtol}
use mm_regression.Opc.{OpControl, opc_get_value}
use mm_regression.Machine.{
  Call, Kernel, exit, pure, stop, ◌>>=◌, ◌>>◌, done, puts, present, as_word, sext, mul64,
  into_buffer,
}
use mm_regression.Gigantic.{
  G, call, emit, report, do_allocate, do_access, do_madvise, do_iterate_mapping, do_fork, do_mremap,
}
use mm_regression.Gigantic.Parse.{read_operation}

-- `opc->tag`
tag_value : OpControl → Option CString
tag_value opc = elim opc.tag [
  | none ↦ none
  | some i ↦ elim (get_elem? opc.args i) [ none ↦ none | some a ↦ some a.value ]
]

-- The name of the operation, with its tag.
tag_string : OpControl → CString
unfolding tag_value
tag_string opc = elim (tag_value opc) [
  | none ↦ opc.name
  | some tag ↦ opc.name ++ (codes "_" ++ tag)
]

module _ (kernel : Kernel) where
  -- A wait is for a time, where one is given, and else for a signal.
  pub wait_at : (key when : CString) → (wanted : Bool) → OpControl → G (Unit {0})
  unfolding tag_string
  wait_at key when false opc = done
  wait_at key when true opc = do
    text ← into_buffer 256 (when ++ tag_string opc)
    elim (opc_get_value opc key) [
      | none ↦ do report kernel (text ++ codes "\n") []; emit kernel Call.pause
      | some sleep ↦ emit kernel (Call.usleep (strtoul sleep % 2 ^ 32))
    ]

  pub do_wait_before : OpControl → G (Unit {0})
  unfolding wait_at
  do_wait_before opc = wait_at (codes "wait_before") (codes "before_") opc.wait_before opc

  pub do_wait_after : OpControl → G (Unit {0})
  unfolding wait_at
  do_wait_after opc = wait_at (codes "wait_after") (codes "after_") opc.wait_after opc

  module _ (rounds : ℕ) where
    -- The chain of `strcmp` tests on the name; a name that is none of them leaves `ret` as it is.
    run_named : OpControl → (tag : CString) → (ret : ℤ) → G ℤ
    run_named opc tag ret =
        if str_eq opc.name (codes "allocate")
        then do_allocate kernel opc
        else if str_eq opc.name (codes "access")
        then do_access kernel opc
        else if str_eq opc.name (codes "madvise")
        then do_madvise kernel opc
        else if str_eq opc.name (codes "iterate_mapping")
        then do_iterate_mapping kernel rounds opc
        else if str_eq opc.name (codes "fork")
        then do_fork kernel
        else if str_eq opc.name (codes "mremap")
        then do_mremap kernel
        else if str_eq opc.name (codes "pause")
        then (do report kernel (tag ++ codes "\n") []; emit kernel Call.pause; pure (pos 0))
        else pure ret

    -- The body of the loop of `main` for one argument; the new `ret`.
    run_arg : CString → (ret : ℤ) → G ℤ
    unfolding tag_string run_named
    run_arg text ret = do
      opc ← present (read_operation text)
      tag ← into_buffer 256 (tag_string opc)
      do_wait_before opc
      ret' ← run_named opc tag ret
      report kernel (tag ++ codes " returned %d\n") (as_word ret' ∷ [])
      do_wait_after opc
      pure ret'

    pub run_args : List CString → (ret : ℤ) → G (Unit {0})
    unfolding run_arg
    run_args [] ret = done
    run_args (text ∷ texts) ret = do ret' ← run_arg text ret; run_args texts ret'

  -- The options move `argindex`, but -v does not; the number of pages is an `int`.
  pub read_flags : List (ℕ × CString) → (argindex nr_gp : ℕ) → G (ℕ × ℕ)
  read_flags [] argindex nr_gp = pure (argindex, nr_gp)
  read_flags ((letter, optarg) ∷ options) argindex nr_gp =
      if letter == b'p'
      then (do
        puts (λ s. record s { testpipe = true })
        fifo ← call kernel (Call.is_fifo optarg)
        if is_zero fifo then stop exit else read_flags options (argindex + 2) nr_gp)
      else if letter == b'n'
      then read_flags options (argindex + 2) (strtol optarg % 2 ^ 32)
      else read_flags options argindex nr_gp

  -- `argv` as `getopt` leaves it, from `argv[0]` on.
  drop_args : (n : ℕ) → List CString → List CString
  drop_args zero argv = argv
  drop_args (suc n) [] = []
  drop_args (suc n) (word ∷ argv) = drop_args n argv

  pub main : (rounds : ℕ) → (argv : List CString) → List (ℕ × CString) → G (Unit {0})
  unfolding read_flags drop_args run_args
  main rounds argv options = do
    emit kernel Call.signal_sigusr1
    emit kernel Call.sigaction_sigbus
    (argindex, nr_gp) ← read_flags options 1 1
    puts (λ s. record s { size = mul64 (sext nr_gp) (2 ^ 30) })
    ret ← call kernel Call.no_return
    run_args rounds (drop_args argindex argv) ret
