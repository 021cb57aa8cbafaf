-- ===== src/ForkRw/Tests.antt =====
-- Runs of the parent and of the child.
use mm_regression.Base.{◌*◌, ◌≡◌, ◌⊎◌, refl, []}
use mm_regression.Base.Int.{pos, negsuc}
use mm_regression.Base.Text.{codes, str_eq}
use mm_regression.Machine.{Call, Kernel, ok}
use mm_regression.ForkRw.{Shared, failure, parent, child}
use mm_regression.ForkRw.Status.{parent-child}

-- Every call succeeds with 0, and the page is never poisoned.
abbrev unharmed : Kernel
unharmed t c = pos 0

-- The page cannot be read, and the child ends with -1.
abbrev poisoned : Kernel
poisoned t (Call.pread fd size offset) = negsuc 0
poisoned t Call.wait = pos (255 * 256)
poisoned t c = pos 0

abbrev a_page : Shared
a_page = record { addr = 0x700000000000; fd = pos 3; shmkey = pos 0 }

parent-child_example :
    ((parent poisoned 0x200000 a_page []).0 ≡ ok (pos 2))
    × ((failure ≡ pos 0) ⊎ (failure ≡ failure))
unfolding child str_eq
parent-child_example =
    parent-child poisoned 0x200000 (codes "a") (codes "sysrw") a_page [] [] failure refl (λ v. refl)

-- A child that can read the page at first has failed.
child-unharmed : (child unharmed 0x200000 (codes "a") (codes "sysrw") a_page []).0 ≡ ok failure
unfolding child str_eq
child-unharmed = refl
