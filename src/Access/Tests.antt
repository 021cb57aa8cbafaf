-- ===== src/Access/Tests.antt =====
-- Runs of the accesses.
use mm_regression.Base.{◌≡◌, ◌≢◌, refl, [], ◌∷◌}
use mm_regression.Machine.{ok}
use mm_regression.Machine.Samples.{obliging, unmapped, fresh}
use mm_regression.Access.{backward, syswrite_down}
use mm_regression.Access.Pages.{syswrite_down-ne-ok}

down : backward 12288 ≡ 8192 ∷ 4096 ∷ 0 ∷ []
unfolding backward
down = refl

syswrite_down-ne-ok_example : (syswrite_down obliging 100 unmapped 4096 fresh).0 ≢ ok tt
syswrite_down-ne-ok_example = syswrite_down-ne-ok obliging 100 unmapped 4096 fresh
