-- ===== src/Programs/Idle.antt =====
-- lib/test_mark_idle_all.c: it reads or sets the idle bits of all pages of 1 TB.
pub mod Covered
pub mod Tests
use mm_regression.Base.{ℕ, zero, suc, ◌+◌, ◌*◌, List, [], ◌∷◌, if◌then◌else◌}
use mm_regression.Base.Int.{ℤ, is_minus_one}
use mm_regression.Base.Text.{CString, codes, str_eq}
use mm_regression.Machine.{Call, Kernel, ◌>>=◌, ◌>>◌, done, present, fault, stop}
use mm_regression.Machine.Bare.{R, call}

abbrev pub bufsize : ℕ
bufsize = 64

-- The words of the buffer stand for 64 pages each.
abbrev pub rounds : ℕ
rounds = 1024 * 64

module _ (kernel : Kernel) where
  -- `for (i = ...)` with `left` rounds left, up to the first call that fails. `transfer` is `pread` or
  -- `pwrite` at an offset.
  pub idle_loop : (transfer : ℕ → Call) → (left i : ℕ) → R (Unit {0})
  idle_loop transfer zero i = done
  idle_loop transfer (suc left) i = do
    r ← call kernel (transfer (i * 8 * bufsize))
    let rest = idle_loop transfer left (i + 1)
    if is_minus_one r then done else rest

  -- `argv` from `argv[1]` on.
  pub main : (argv : List CString) → R (Unit {0})
  unfolding idle_loop
  main [] = stop fault
  main (mode ∷ argv) = do
    fd ← call kernel (Call.open_rw (codes "/sys/kernel/mm/page_idle/bitmap"))
    if str_eq mode (codes "read")
        then idle_loop (Call.pread fd (8 * bufsize)) rounds 0
        else if str_eq mode (codes "write")
        then idle_loop (Call.pwrite fd (8 * bufsize)) rounds 0
        else done
