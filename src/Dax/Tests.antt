-- ===== src/Dax/Tests.antt =====
-- Runs at concrete inputs.
use mm_regression.Base.{ℕ, ◌*◌, ◌%◌, ◌^◌, ◌≡◌, refl, arith, List, [], ◌∷◌, false, length}
use mm_regression.Base.Int.{pos}
use mm_regression.Machine.{Call, ok, done}
use mm_regression.Machine.Bare.{call, emit}
use mm_regression.Machine.Samples.{obliging}
use mm_regression.Dax.{passes, syswrite_at, write_at, map_regions, nr_mmaps}
use mm_regression.Dax.Regions.{accesses-IsInside}
use mm_regression.Dax.Repeats.{IsPass, IsFinish, passes_lem}

abbrev mapping : Call
mapping = Call.mmap 0x700000000000 16384 3 1 (pos 3) 0

-- Four writes to a mapped region make a pass.
writing-IsPass : IsPass 4 (write_at obliging (0x700000000000 ∷ []) 4096)
unfolding map_regions nr_mmaps call
writing-IsPass = record {
  at = λ i t below.
      let inside =
        accesses-IsInside obliging 1 (pos 3) 16384 4096 262144 i [] (mapping ∷ []) t
          (0x700000000000 ∷ []) refl (omega arith) (omega arith) refl (omega arith) (omega arith) in
      (Call.memset inside.0 4096, inside.1);
}

nothing-IsFinish : IsFinish done (λ t. t)
nothing-IsFinish = record { at = λ t. refl }

-- The process ends with the tenth write.
passes_lem_example :
    (u : List Call) × (passes (write_at obliging (0x700000000000 ∷ []) 4096) done false 4 10 10 []
      ≡ (ok 0, u))
    × (length u ≡ 10)
passes_lem_example =
    passes_lem 4 (write_at obliging (0x700000000000 ∷ []) 4096) done (λ t. t) writing-IsPass
      nothing-IsFinish (omega arith) 10 10 [] (omega arith) (omega arith) (omega arith)
      (omega arith)

-- A system write makes a pass of any length, and fsync follows the last.
syswriting-IsPass : (count : ℕ) → IsPass count (syswrite_at obliging (pos 3) 4096)
unfolding syswrite_at call
syswriting-IsPass count = record {
  at = λ i t below. (Call.pwrite (pos 3) 4096 (i * 4096 % 2 ^ 64), refl);
}

fsync-IsFinish : IsFinish (emit obliging (Call.fsync (pos 3))) (λ t. Call.fsync (pos 3) ∷ t)
unfolding emit
fsync-IsFinish = record { at = λ t. refl }
