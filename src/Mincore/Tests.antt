-- ===== src/Mincore/Tests.antt =====
-- Runs at concrete inputs.
use mm_regression.Base.{ℕ, ◌≢◌, refl, arith, List, [], ◌∷◌}
use mm_regression.Machine.{fault}
use mm_regression.Machine.Samples.{obliging, fresh}
use mm_regression.Machine.Touched.{IsSafe}
use mm_regression.Mincore.{run}
use mm_regression.Mincore.Locals.{defaults}
use mm_regression.Mincore.Stages.{IsSized}
use mm_regression.Mincore.Safe.{run-IsSafe}

-- The heap is full of ones; every second page is in memory.
abbrev ones : ℕ → ℕ
ones i = 1

abbrev found : List ℕ
found = 1 ∷ 0 ∷ 1 ∷ 0 ∷ []

-- With no option the size is 2 MB.
defaults-IsSized : IsSized defaults
defaults-IsSized = record {
  fours = 128;
  size_eq = refl;
  some_pages = omega arith;
  few_pages = omega arith;
}

-- Pages that a kernel without procfs tells nothing of.
abbrev no_words : ℕ → ℕ → List ℕ
no_words index count = []

run-IsSafe_example :
    IsSafe obliging (run obliging 3 no_words no_words (λ t i. 1) ones defaults fresh).1.trace
    × ((run obliging 3 no_words no_words (λ t i. 1) ones defaults fresh).0 ≢ fault)
run-IsSafe_example =
    run-IsSafe obliging 3 no_words no_words (λ t i. 1) ones defaults defaults-IsSized fresh tt
