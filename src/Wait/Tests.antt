-- ===== src/Wait/Tests.antt =====
-- Runs of the waits.
use mm_regression.Base.{
  ◌≡◌, ◌<◌, ◌++◌, true, false, All, arith, List, [], ◌∷◌, length, length-append,
}
use mm_regression.Base.Int.{pos, is_zero}
use mm_regression.Base.Text.{codes}
use mm_regression.Machine.{Call, Kernel}
use mm_regression.Machine.Post.{Post}
use mm_regression.Machine.Samples.{fresh}
use mm_regression.Wait.{pprintf_wait}
use mm_regression.Wait.Laws.{is_set, IsHandled, IsWoken, pprintf_wait-IsWoken}

-- A signal arrives with every call, the flag is set until the next call, and all else succeeds.
abbrev signalling : Kernel
signalling (Call.set_wait_flag ∷ t) Call.wait_flag = pos 1
signalling t c = pos 0

signalling-IsHandled : IsHandled signalling length
signalling-IsHandled = record { cleared = handled }
  where
    handled :
        (before between : List Call)
        → All (λ c. is_set c ≡ false) between
        → is_zero (signalling (between ++ (Call.set_wait_flag ∷ before)) Call.wait_flag) ≡ true
        → length (Call.set_wait_flag ∷ before) < length (between ++ (Call.set_wait_flag ∷ before))
    handled before [] h e = absurd (ground arith)
    handled before (c ∷ between) h e =
        omega (arith, length-append between (Call.set_wait_flag ∷ before))

pprintf_wait-IsWoken_example :
    Post fresh (pprintf_wait signalling 10 (codes "before_noop\n") []) (λ _ t.
      (u : List Call) × (t.trace ≡ Call.sigaction_restore ∷ u) × IsWoken signalling [] length u)
pprintf_wait-IsWoken_example =
    pprintf_wait-IsWoken signalling length 10 (codes "before_noop\n") [] fresh signalling-IsHandled
