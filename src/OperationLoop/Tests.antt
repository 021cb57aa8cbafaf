-- ===== src/OperationLoop/Tests.antt =====
-- Runs of the operations.
use mm_regression.Base.{[], ◌≡◌, none, false}
use mm_regression.Base.Text.{codes}
use mm_regression.Opc.{OpControl}
use mm_regression.Machine.Samples.{obliging, fresh}
use mm_regression.Machine.{exit}
use mm_regression.Parse.Tests.{unknown}
use mm_regression.OperationLoop.{dispatch}
use mm_regression.OperationLoop.Names.{dispatch-exit}
use mm_regression.Memblock.{Pageflags}

abbrev bare : OpControl
bare = record {
  name = codes "iterate_mapping";
  wait_before = false;
  wait_after = false;
  tag = none;
  args = [];
}

abbrev no_words : Pageflags
no_words = record { words = λ index count. []; junk = λ count. [] }

dispatch-exit_example :
    dispatch obliging 100 no_words (record bare { name = codes "acces" }) fresh ≡ (exit, fresh)
dispatch-exit_example =
    dispatch-exit obliging 100 no_words (record bare { name = codes "acces" }) fresh unknown
