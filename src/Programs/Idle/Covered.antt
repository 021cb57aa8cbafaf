-- ===== src/Programs/Idle/Covered.antt =====
-- The pages that the program reaches.
use mm_regression.Base.{
  ℕ, zero, suc, ◌+◌, ◌*◌, ◌/◌, ◌^◌, ◌≤◌, ◌<◌, ◌≡◌, ◌⊎◌, inl, inr, refl, arith, List, [], ◌∷◌, false,
}
use native.Mathlib.Decide.{dec_lt}
use mm_regression.Base.Int.{ℤ, is_minus_one}
use mm_regression.Base.Text.{CString, codes, str_eq}
use mm_regression.Machine.{Call, Kernel}
use mm_regression.Machine.Bare.{call}
use mm_regression.Programs.Idle.{bufsize, rounds, idle_loop, main}

-- A call writes the byte of the bitmap with the bit of the page, on the file `fd`.
abbrev pub Writes : (fd : ℤ) (pfn : ℕ) → Call → Type 0
Writes fd pfn (Call.pwrite fd' size offset) =
    (fd ≡ fd') × (offset ≤ pfn / 8) × (pfn / 8 < offset + size)
Writes fd pfn c = ⊥

-- One of the calls made so far does.
abbrev pub Reached : (fd : ℤ) (pfn : ℕ) → List Call → Type 0
Reached fd pfn [] = ⊥
Reached fd pfn (c ∷ t) = Writes fd pfn c ⊎ Reached fd pfn t

module _ (kernel : Kernel)
    (works : (t : List Call) (c : Call) → is_minus_one (kernel t c) ≡ false) where
  kept :
      (fd : ℤ) (pfn left i : ℕ) (t : List Call)
      → Reached fd pfn t
      → Reached fd pfn (idle_loop kernel (Call.pwrite fd (8 * bufsize)) left i t).1
  unfolding idle_loop call
  kept fd pfn zero i t h = h
  kept fd pfn (suc left) i t h = rw (works t _) (kept fd pfn left (i + 1) _ (inr h))

  reached :
      (fd : ℤ) (pfn left i : ℕ) (t : List Call)
      → i ≤ pfn / 4096
      → pfn / 4096 < i + left
      → Reached fd pfn (idle_loop kernel (Call.pwrite fd (8 * bufsize)) left i t).1
  unfolding idle_loop call
  reached fd pfn zero i t h k = absurd (omega arith)
  reached fd pfn (suc left) i t h k = rw (works t _) (elim (dec_lt i (pfn / 4096)) [
    | yes later ↦ reached fd pfn left (i + 1) _ (omega arith) (omega arith)
    | no here ↦ kept fd pfn left (i + 1) _ (inl (refl, omega arith, omega arith))
  ])

  -- Where no call fails, `write` writes to the idle bit of every page frame below 2^28, on the file
  -- that it has opened: to all pages of the first 1 TB.
  pub main-Reached :
      (argv : List CString) (pfn : ℕ)
      → pfn < 2 ^ 28
      → Reached
          (kernel [] (Call.open_rw (codes "/sys/kernel/mm/page_idle/bitmap")))
          pfn
          (main kernel (codes "write" ∷ argv) []).1
  unfolding main call str_eq
  main-Reached argv pfn h = reached _ pfn rounds 0 _ (omega arith) (omega arith)
