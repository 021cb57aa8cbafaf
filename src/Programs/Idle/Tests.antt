-- ===== src/Programs/Idle/Tests.antt =====
-- A run on a system with page_idle.
use mm_regression.Base.{arith, []}
use mm_regression.Base.Text.{codes}
use mm_regression.Base.Int.{pos}
use mm_regression.Base.{◌∷◌, refl}
use mm_regression.Machine.{Kernel}
use mm_regression.Programs.Idle.{main}
use mm_regression.Programs.Idle.Covered.{Reached, main-Reached}

abbrev working : Kernel
working t c = pos 3

main-Reached_example : Reached (pos 3) 1000000 (main working (codes "write" ∷ []) []).1
main-Reached_example = main-Reached working (λ t c. refl) [] 1000000 (omega arith)
