-- ===== src/Programs/Moves.antt =====
-- lib/test_numa_move_pages.c and lib/test_iterate_numa_move_pages.c: they move pages of another
-- process between nodes. `argv` is taken from `argv[1]` on; `malloc` is taken to succeed.
pub mod Filled
pub mod Tests
use mm_regression.Base.{
  ℕ, zero, suc, ◌+◌, ◌*◌, ◌/◌, ◌%◌, ◌^◌, List, [], ◌∷◌, Option, none, some, Bool, true, false, ltb,
  length, set, replicate, tabulate, map, get_elem?, if◌then◌else◌,
}
use mm_regression.Base.Int.{ℤ, is_zero, is_minus_one}
use mm_regression.Base.Text.{CString, codes, str_eq}
use mm_regression.Libc.{strtol}
use mm_regression.Abi.{ps, hps, addr_input}
use mm_regression.Machine.{
  Call, Kernel, exit, fault, running, ◌>>=◌, ◌>>◌, done, pure, stop, present,
}
use mm_regression.Machine.Bare.{R, call, emit}

-- MPOL_MF_MOVE_ALL
abbrev pub move_all : ℕ
move_all = 4

-- An `int` from an argument. A negative one is not modelled: `fault`.
int_arg : List CString → (k : ℕ) → R ℕ
int_arg argv k = do
  text ← present (get_elem? argv k)
  let n = strtol text % 2 ^ 32
  if ltb n (2 ^ 31) then pure n else stop fault

-- A product of two values of type `int`, whose overflow is undefined.
int_product : ℕ → ℕ → R ℕ
int_product a b = if ltb (a * b) (2 ^ 31) then pure (a * b) else stop fault

-- The arrays of `nr_p` elements, the elements of `status` aside. There is none of nodes with `stat`.
pub record Arrays : Type 0 where
  pub addrs : List (Option ℕ)
  pub nodes : Option (List (Option ℕ))

pub new_arrays : (stat : Bool) → (nr_p : ℕ) → Arrays
new_arrays stat nr_p = record {
  addrs = replicate nr_p none;
  nodes = if stat then none else some (replicate nr_p none);
}

set_node : (i dst : ℕ) → Option (List (Option ℕ)) → Option (List (Option ℕ))
set_node i dst none = none
set_node i dst (some nodes) = some (set nodes i (some dst))

-- One round of the loop that fills the arrays; beyond their end it is undefined.
fill_one : (dst i : ℕ) → Arrays → R Arrays
unfolding set_node
fill_one dst i a =
    if ltb i (length a.addrs)
    then (do
      offset ← int_product i ps
      pure (record {
        addrs = set a.addrs i (some (addr_input + offset));
        nodes = set_node i dst a.nodes;
      }))
    else stop fault

-- The loop, for `left` rounds from `i` on.
pub fill : (dst left i : ℕ) → Arrays → R Arrays
unfolding fill_one
fill dst zero i a = pure a
fill dst (suc left) i a = do a' ← fill_one dst i a; fill dst left (i + 1) a'

-- `argc > 5 && !strcmp(argv[5], "stat")`
is_stat : Option CString → Bool
is_stat none = false
is_stat (some word) = str_eq word (codes "stat")

module _ (kernel : Kernel) where
  -- `nr_p` elements are passed, those included that the loop has left alone.
  pub move_pct : (stat : Bool) → (nr_p pid dst pct : ℕ) → R (Unit {0})
  unfolding new_arrays int_product fill
  move_pct stat nr_p pid dst pct = do
    part ← int_product nr_p pct
    a ← fill dst (part / 100) 0 (new_arrays stat nr_p)
    emit kernel (Call.move_pages_of pid a.addrs a.nodes move_all)

  -- `main` of test_numa_move_pages.c
  pub numa_main : (argv : List CString) → R (Unit {0})
  unfolding int_arg int_product is_stat move_pct
  numa_main argv = do
    nr_hp ← int_arg argv 0
    bytes ← int_product nr_hp hps
    pid ← int_arg argv 1
    dst ← int_arg argv 2
    pct ← int_arg argv 3
    move_pct (is_stat (get_elem? argv 4)) (bytes / ps) pid dst pct

  -- All pages to a node; a failure ends the process.
  move_to : (nr_p pid node : ℕ) → R (Unit {0})
  unfolding new_arrays fill
  move_to nr_p pid node = do
    a ← fill node nr_p 0 (new_arrays false nr_p)
    ret ← call kernel (Call.move_pages_of pid a.addrs a.nodes move_all)
    if is_minus_one ret then stop exit else done

  -- `while (flag)`
  pub iterate : (rounds nr_p pid : ℕ) → R (Unit {0})
  unfolding move_to
  iterate zero nr_p pid = stop running
  iterate (suc rounds) nr_p pid = do
    up ← call kernel Call.flag
    if is_zero up
        then done
        else (do move_to nr_p pid 1; move_to nr_p pid 0; iterate rounds nr_p pid)

  -- `main` of test_iterate_numa_move_pages.c
  pub iterate_main : (rounds : ℕ) → (argv : List CString) → R (Unit {0})
  unfolding int_arg int_product iterate
  iterate_main rounds argv = do
    nr_hp ← int_arg argv 0
    bytes ← int_product nr_hp hps
    pid ← int_arg argv 1
    emit kernel Call.signal_sigusr1
    iterate rounds (bytes / ps) pid
