-- ===== src/Programs/Ndctl.antt =====
-- lib/ndctl_ioctl.c: it asks the drivers of an NVDIMM to find, to inject and to clear errors.
-- `argv` is taken from `argv[1]` on; `malloc` is taken to succeed.
pub mod Ranges
pub mod Tests
use mm_regression.Base.{
  ℕ, zero, suc, ◌+◌, ◌-◌, ◌*◌, ◌/◌, ◌%◌, ◌^◌, List, [], ◌∷◌, ◌++◌, Option, none, some, Bool, ltb,
  ◌==◌, ◌&&◌, ◌||◌, replicate, length, get_elem?, if◌then◌else◌,
}
use mm_regression.Base.Int.{ℤ, pos}
use mm_regression.Base.Text.{CString, codes}
use mm_regression.Libc.{strtoul}
use mm_regression.Machine.{Run, ok, pure, present, ◌>>=◌}

-- `struct nd_cmd_clear_error`, with the fields that are not 0 when it is handed over
pub record ClearError : Type 0 where
  pub address : ℕ
  pub length : ℕ

-- `struct nd_cmd_ars_start`, with the fields that are not 0 when it is handed over
pub record ArsStart : Type 0 where
  pub address : ℕ
  pub length : ℕ
  pub type : ℕ
  pub flags : ℕ

-- `struct nd_cmd_ars_status`, with the fields that the program uses: the number of the records, and
-- the first of them
pub record ArsStatus : Type 0 where
  pub num_records : ℕ
  pub err_address : ℕ
  pub err_length : ℕ

-- `struct nd_cmd_pkg`, with the fields that are not 0 when it is handed over
pub record Package : Type 0 where
  pub nd_family : ℕ
  pub nd_command : ℕ
  pub nd_size_in : ℕ
  pub nd_size_out : ℕ
  pub nd_payload : List ℕ

-- An `ioctl` with its struct: ND_CMD_ARS_START, ND_CMD_ARS_STATUS (with `out_length`),
-- ND_CMD_CLEAR_ERROR, ND_CMD_CALL and NVDIMM_INTEL_INJECT_ERROR (with `flags` and `field`).
pub data Request : Type 0 where
  cmd_ars_start : ArsStart → Request
  cmd_ars_status : (out_length : ℕ) → Request
  cmd_clear_error : ClearError → Request
  cmd_call : Package → Request
  intel_inject_error : (flags field : ℕ) → Request

pub data Step : Type 0 where
  open_rw system : CString → Step
  ioctl : (fd : ℤ) → Request → Step

-- The `n` bytes of a number, the least one first.
pub le_bytes : (n x : ℕ) → List ℕ
le_bytes zero x = []
le_bytes (suc n) x = (x % 256) ∷ le_bytes n (x / 256)

-- `memcpy(cmd_pkg.nd_payload, ..., n)` into 32 bytes of 0, for the `n` bytes given
pub payload_of : List ℕ → List ℕ
payload_of bytes = bytes ++ replicate (32 - length bytes) 0

-- The struct that `= {}` makes, and NVDIMM_FAMILY_INTEL
pub new_package : (command size_in size_out : ℕ) → (payload : List ℕ) → Package
unfolding payload_of
new_package command size_in size_out payload = record {
  nd_family = 0;
  nd_command = command;
  nd_size_in = size_in;
  nd_size_out = size_out;
  nd_payload = payload_of payload;
}

abbrev nfit_cmd_translate_spa : ℕ
nfit_cmd_translate_spa = 0x5

abbrev nfit_cmd_ars_inject_set : ℕ
nfit_cmd_ars_inject_set = 0x7

abbrev nfit_cmd_ars_inject_clear : ℕ
nfit_cmd_ars_inject_clear = 0x8

abbrev nfit_cmd_ars_inject_get : ℕ
nfit_cmd_ars_inject_get = 0x9

abbrev pub default_base : ℕ
default_base = 0x840000000

abbrev pub default_length : ℕ
default_length = 0x3f00000000

-- A number on the command line, or what the struct begins with.
pub number_or : ℕ → Option CString → ℕ
number_or n none = n
number_or n (some text) = strtoul text

-- What a struct holds before `memcpy`: `struct nd_translate_spa`
pub translate_spa : (argv : List CString) → List ℕ
unfolding le_bytes number_or
translate_spa argv = le_bytes 8 (number_or default_base (get_elem? argv 1))

-- `struct ars_error_inject_clear`
pub inject_clear : (argv : List CString) → List ℕ
unfolding le_bytes number_or
inject_clear argv =
    le_bytes 8 (number_or default_base (get_elem? argv 1))
    ++ le_bytes 8 (number_or default_length (get_elem? argv 2))

-- The first 17 bytes of `struct ars_error_inject`
pub inject : (argv : List CString) → List ℕ
unfolding inject_clear
inject argv = inject_clear argv ++ (1 ∷ [])

abbrev pub R : Type 0 → Type 0
R A = Run (List Step) A

-- `answer` is what a call returns, and `stored` what the buffer `ars_status` holds after its
-- `ioctl`.
module _ (answer : List Step → Step → ℤ) (stored : List Step → ArsStatus) where
  pub step : Step → R ℤ
  step c t = (ok (answer t c), c ∷ t)

  -- `system("dmesg | tail -n 30")`, and the end of `main` with no `return`
  pub finish : R ℤ
  unfolding step
  finish = do _ ← step (Step.system (codes "dmesg | tail -n 30")); pure (pos 0)

  read_status : R ArsStatus
  read_status t = (ok (stored t), t)

  pub start_ars : (fd : ℤ) → R ℤ
  unfolding step finish
  start_ars fd = do
    _ ← step (
        Step.ioctl fd (
          Request.cmd_ars_start
            (record { address = default_base; length = default_length; type = 2; flags = 2 })))
    finish

  pub clear_range : (fd : ℤ) → (address length : ℕ) → R ℤ
  unfolding step
  clear_range fd address length =
      step (Step.ioctl fd (Request.cmd_clear_error (record { address = address; length = length })))

  -- The first record is cleared for the command 4.
  pub query_status : (fd : ℤ) → (cmd : ℕ) → R ℤ
  unfolding step finish read_status clear_range
  query_status fd cmd = do
    _ ← step (Step.ioctl fd (Request.cmd_ars_status 72))
    status ← read_status
    if ltb 0 status.num_records && cmd == 4
        then (do _ ← clear_range fd status.err_address status.err_length; finish)
        else finish

  pub call_package : (fd : ℤ) → Package → R ℤ
  unfolding step finish
  call_package fd p = do _ ← step (Step.ioctl fd (Request.cmd_call p)); finish

  pub run_command : (fd fd2 : ℤ) → (cmd : ℕ) → (argv : List CString) → R ℤ
  unfolding step finish start_ars clear_range query_status call_package new_package translate_spa
      inject_clear inject number_or
  run_command fd fd2 cmd argv =
      if cmd == 2
      then start_ars fd
      else if cmd == 4 && length argv == 3
      then (do
        _ ← clear_range fd (number_or 0 (get_elem? argv 1)) (number_or 0 (get_elem? argv 2))
        finish)
      else if cmd == 3 || cmd == 4
      then query_status fd cmd
      else if cmd == 5
      then step (
          Step.ioctl fd
            (Request.cmd_call (new_package nfit_cmd_translate_spa 8 36 (translate_spa argv))))
      else if cmd == 7
      then call_package fd (new_package nfit_cmd_ars_inject_set 17 4 (inject argv))
      else if cmd == 8
      then call_package fd (new_package nfit_cmd_ars_inject_clear 16 4 (inject_clear argv))
      else if cmd == 9
      then call_package fd (new_package nfit_cmd_ars_inject_get 0 32 [])
      else if cmd == 18
      then (do _ ← step (Step.ioctl fd2 (Request.intel_inject_error 0x8 (2 ^ 48))); finish)
      else finish

  -- `cmd` is an `int`.
  pub main : (argv : List CString) → R ℤ
  unfolding step run_command
  main argv = do
    fd ← step (Step.open_rw (codes "/dev/ndctl0"))
    fd2 ← step (Step.open_rw (codes "/dev/nmem0"))
    text ← present (get_elem? argv 0)
    run_command fd fd2 (strtoul text % 2 ^ 32) argv
