-- ===== src/Dax/Inputs.antt =====
-- The environment and the arguments of lib/test_dax.c.
use mm_regression.Base.{ℕ, List, [], ◌∷◌, Option, none, some, Bool}
use mm_regression.Base.Text.{CString}
use mm_regression.Libc.{strtoul}
use mm_regression.Abi.{hps}

-- What `getenv` returns.
pub record Environment : Type 0 where
  pub repeats : Option CString
  pub map_sync : Option CString
  pub no_warmup : Option CString
  pub no_repeat : Option CString
  pub set_statx_attr_dax : Bool

-- A variable that is not set counts as 0.
unfoldable pub number_of : Option CString → ℕ
number_of none = 0
number_of (some text) = strtoul text

-- `argv` from `argv[1]` on.
pub record Arguments : Type 0 where
  pub path : Option CString
  pub size : ℕ
  pub iotype : Option CString
  pub iosize : ℕ

unfoldable pub read_arguments : List CString → Arguments
read_arguments [] = record { path = none; size = hps; iotype = none; iosize = hps }
read_arguments (path ∷ []) = record { path = some path; size = hps; iotype = none; iosize = hps }
read_arguments (path ∷ size ∷ []) = record {
  path = some path;
  size = strtoul size;
  iotype = none;
  iosize = hps;
}
read_arguments (path ∷ size ∷ iotype ∷ []) = record {
  path = some path;
  size = strtoul size;
  iotype = some iotype;
  iosize = hps;
}
read_arguments (path ∷ size ∷ iotype ∷ iosize ∷ rest) = record {
  path = some path;
  size = strtoul size;
  iotype = some iotype;
  iosize = strtoul iosize;
}
