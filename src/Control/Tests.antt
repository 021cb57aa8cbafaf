-- ===== src/Control/Tests.antt =====
-- Runs of the operations that drive others.
use mm_regression.Base.{◌≡◌, [], ◌∷◌, none, false}
use mm_regression.Base.Text.{codes}
use mm_regression.Opc.{OpControl}
use mm_regression.Machine.{exit}
use mm_regression.Machine.Samples.{obliging, fresh}
use mm_regression.Memblock.{Pageflags}
use mm_regression.Control.{do_hotremove}
use mm_regression.Control.Hotremove.{do_hotremove-exit}

abbrev no_words : Pageflags
no_words = record { words = λ index count. []; junk = λ count. [] }

abbrev removing : OpControl
removing = record {
  name = codes "hotremove";
  wait_before = false;
  wait_after = false;
  tag = none;
  args = record { key = codes "pageflags"; value = codes "huge"; room = 128 } ∷ [];
}

do_hotremove-exit_example :
    do_hotremove obliging 10 no_words removing (record fresh { filters = (2, 2) ∷ [] })
    ≡ (exit, record fresh { filters = (2, 2) ∷ [] })
do_hotremove-exit_example =
    do_hotremove-exit obliging 10 no_words removing (record fresh { filters = (2, 2) ∷ [] })
      (λ e. cc)
