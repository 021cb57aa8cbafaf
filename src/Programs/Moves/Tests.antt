-- ===== src/Programs/Moves/Tests.antt =====
-- Half of eight pages.
use mm_regression.Base.{◌≡◌, arith, [], ◌∷◌, false}
use mm_regression.Machine.{Call, ok}
use mm_regression.Machine.Samples.{obliging}
use mm_regression.Programs.Moves.{Arrays, move_pct, move_all}
use mm_regression.Programs.Moves.Filled.{HalfArrays, move_pct_lem}

move_pct_lem_example :
    (b : Arrays) × (move_pct obliging false 8 42 1 50 []
      ≡ (ok tt, Call.move_pages_of 42 b.addrs b.nodes move_all ∷ []))
    × HalfArrays false 8 4 1 b
move_pct_lem_example =
    move_pct_lem obliging false 8 42 1 50 [] (omega arith) (omega arith) (omega arith)
