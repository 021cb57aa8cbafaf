-- ===== src/Programs/Ndctl/Tests.antt =====
-- Runs on a system with an NVDIMM.
use mm_regression.Base.{◌≡◌, refl, inl, inr, List, [], ◌∷◌, ◌++◌, replicate}
use mm_regression.Base.Int.{ℤ, pos}
use mm_regression.Base.Text.{codes}
use mm_regression.Libc.{strtoul}
use mm_regression.Machine.{ok}
use mm_regression.Programs.Ndctl.{ArsStatus, Step, Request, main, inject}
use mm_regression.Programs.Ndctl.Ranges.{IsAsked, main-IsAsked}

abbrev working : List Step → Step → ℤ
working t c = pos 3

abbrev one_record : List Step → ArsStatus
one_record t = record { num_records = 1; err_address = 8192; err_length = 64 }

-- The bytes of a range, and the option behind them.
inject_bytes :
    inject (codes "7" ∷ codes "0x1234" ∷ codes "256" ∷ [])
    ≡ 0x34 ∷ 0x12 ∷ (replicate 6 0 ++ (0 ∷ 1 ∷ (replicate 6 0 ++ (1 ∷ []))))
unfolding inject strtoul
inject_bytes = refl

-- The first record of the status is cleared.
clear_first :
    (main working one_record (codes "4" ∷ []) []).1
    ≡ Step.system (codes "dmesg | tail -n 30")
      ∷ Step.ioctl (pos 3) (Request.cmd_clear_error (record { address = 8192; length = 64 }))
      ∷ Step.ioctl (pos 3) (Request.cmd_ars_status 72)
      ∷ Step.open_rw (codes "/dev/nmem0")
      ∷ Step.open_rw (codes "/dev/ndctl0")
      ∷ []
unfolding main strtoul
clear_first = refl

main-IsAsked_example :
    ((main working one_record (codes "7" ∷ codes "0x1234" ∷ codes "256" ∷ []) []).0 ≡ ok (pos 0))
    × IsAsked
        (0x1234, 256)
        (pos 3)
        (main working one_record (codes "7" ∷ codes "0x1234" ∷ codes "256" ∷ []) []).1
        []
unfolding strtoul
main-IsAsked_example =
    main-IsAsked working one_record (codes "7") (codes "0x1234") (codes "256") [] (inr (inl refl))
