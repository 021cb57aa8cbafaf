-- ===== src/Machine/Bare.antt =====
-- Programs with no globals: the state is the list of the calls made so far, the latest first.
use mm_regression.Base.{List, ◌∷◌}
use mm_regression.Base.Int.{ℤ}
use mm_regression.Machine.{Call, Kernel, Run, ok}

abbrev pub R : Type 0 → Type 0
R A = Run (List Call) A

module _ (kernel : Kernel) where
  unfoldable pub call : Call → R ℤ
  call c t = (ok (kernel t c), c ∷ t)

  -- a call whose result the source does not read
  unfoldable pub emit : Call → R (Unit {0})
  emit c t = (ok tt, c ∷ t)
