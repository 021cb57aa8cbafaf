-- ===== src/Programs/Regions/Pages.antt =====
-- The loops touch every page of a region once.
use mm_regression.Base.{
  ℕ, zero, suc, ◌+◌, ◌-◌, ◌*◌, ◌/◌, ◌≡◌, refl, sym, ap, ◌∙◌, arith, List, [], ◌∷◌, ◌++◌, tabulate,
}
use mathlib.Core.List.{reverse, append_assoc, reverse-append}
use mm_regression.Abi.{ps}
use mm_regression.Machine.{Call, Kernel, ok, add64}
use mm_regression.Machine.Bare.{emit}
use mm_regression.Programs.Regions.{region_loop, write_region, read_region}

module _ (kernel : Kernel) where
  region_loop_lem :
      (touch : ℕ → Call) (addr left i : ℕ) (t : List Call)
      → region_loop kernel touch addr left (i * ps) t
        ≡ (ok tt, reverse (tabulate left i (λ j. touch (add64 addr (j * ps)))) ++ t)
  unfolding region_loop emit
  region_loop_lem touch addr zero i t = refl
  region_loop_lem touch addr (suc left) i t =
      let c = touch (add64 addr (i * ps)) in
      let later = tabulate left (i + 1) (λ j. touch (add64 addr (j * ps))) in
      let regroup : reverse later ++ (c ∷ t) ≡ reverse (c ∷ later) ++ t = sym (
        ap (λ l. l ++ t) (reverse-append (c ∷ []) later)
        ∙ append_assoc (reverse later) (c ∷ []) t) in
      ap (λ j. region_loop kernel touch addr left j (c ∷ t)) (omega arith)
      ∙ region_loop_lem touch addr left (i + 1) (c ∷ t)
      ∙ ap (λ l. (ok tt, l)) regroup

  -- write_region stores to the first byte of each page of the region, also one that is cut short, in
  -- order and once each, and read_region loads it.
  pub region_lem :
      (addr size : ℕ) (t : List Call)
      → (write_region kernel addr size t ≡ (
        ok tt,
        reverse (tabulate ((size + ps - 1) / ps) 0 (λ j. Call.store (add64 addr (j * ps)))) ++ t,
      ))
        × (read_region kernel addr size t ≡ (
          ok tt,
          reverse (tabulate ((size + ps - 1) / ps) 0 (λ j. Call.load (add64 addr (j * ps)))) ++ t,
        ))
  unfolding write_region read_region
  region_lem addr size t =
      let n = (size + ps - 1) / ps in
      (
        ap (λ j. region_loop kernel Call.store addr n j t) (omega arith)
            ∙ region_loop_lem Call.store addr n 0 t,
        ap (λ j. region_loop kernel Call.load addr n j t) (omega arith)
            ∙ region_loop_lem Call.load addr n 0 t,
      )
