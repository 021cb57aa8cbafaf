-- ===== src/Mincore/Locals.antt =====
-- The locals of `main` of lib/test_mincore.c, and the options that set them.
use mm_regression.Base.{
  ℕ, ◌*◌, ◌^◌, List, [], ◌∷◌, Option, none, some, Bool, true, not, ◌==◌, bit_and, if◌then◌else◌,
}
use mm_regression.Base.Int.{is_zero}
use mm_regression.Base.Text.{CString}
use mm_regression.Libc.{strtoul, strtoul_decimal}
use mm_regression.Abi.{ps, addr_input}
use mm_regression.Machine.{
  Call, Kernel, exit, M, pure, stop, ◌>>=◌, ◌>>◌, puts, call, sext, add64, sub64, mul64,
}

-- The locals of `main` that the options set.
pub record Options : Type 0 where
  pub memsize : ℕ
  pub file : Option CString
  pub type : ℕ

abbrev pub defaults : Options
defaults = record { memsize = 2 * 1024 * 1024; file = none; type = 0xffff }

-- The addresses of the areas, `none` while they are indeterminate, and where the next one goes.
pub record Areas : Type 0 where
  pub address : ℕ
  pub pmem : Option ℕ
  pub phugetlb : Option ℕ
  pub pthp : Option ℕ
  pub pmem_unaligned : Option ℕ
  pub pfile : Option ℕ
  pub psmall1 : Option ℕ
  pub psmall2 : Option ℕ

abbrev pub no_areas : Areas
no_areas = record {
  address = addr_input;
  pmem = none;
  phugetlb = none;
  pthp = none;
  pmem_unaligned = none;
  pfile = none;
  psmall1 = none;
  psmall2 = none;
}

-- `type & (1 << k)`
abbrev pub chosen : Options → ℕ → Bool
chosen o k = not (bit_and o.type (2 ^ k) == 0)

-- `p + 4*memsize - pages*PS`
unfoldable pub before_end : Options → (p pages : ℕ) → ℕ
before_end o p pages = sub64 (add64 p (mul64 o.memsize 4)) (pages * ps)

module _ (kernel : Kernel) where
  read_option : (letter : ℕ) → (optarg : CString) → Options → M Options
  read_option letter optarg o =
      if letter == b'p'
      then (do
        puts (λ s. record s { testpipe = true })
        fifo ← call kernel (Call.is_fifo optarg)
        if is_zero fifo then stop exit else pure o)
      else if letter == b'n'
      then pure (record o { memsize = mul64 (sext (strtoul_decimal optarg)) ps })
      else if letter == b'v'
      then pure o
      else if letter == b'f'
      then pure (record o { file = some optarg })
      else if letter == b't'
      then pure (record o { type = strtoul optarg })
      else stop exit

  unfoldable pub read_options : List (ℕ × CString) → Options → M Options
  unfolding read_option
  read_options [] o = pure o
  read_options ((letter, optarg) ∷ options) o = do
    o' ← read_option letter optarg o
    read_options options o'
