-- ===== src/Opc/Tests.antt =====
-- Runs of the functions on the arguments of an operation.
use mm_regression.Base.{◌≡◌, refl, [], ◌∷◌, some, none, false, arith}
use mm_regression.Base.Text.{CString, codes, str_eq}
use mm_regression.Opc.Store.{opc_store, replay, written}
use mm_regression.Opc.Replay.{replay-opc_store}
use mm_regression.Opc.{OpControl, nonempty, opc_get_value, opc_set_value}
use mm_regression.Opc.Laws.{opc_get_value-opc_set_value}

abbrev reading : OpControl
reading = record {
  name = codes "access";
  wait_before = false;
  wait_after = false;
  tag = none;
  args = record { key = codes "type"; value = codes "read"; room = 128 } ∷ [];
}

abbrev writing : OpControl
writing = record reading {
  args = record { key = codes "type"; value = codes "syswrite"; room = 128 } ∷ [];
}

overwritten : opc_set_value reading (codes "type") (codes "syswrite") ≡ some writing
unfolding opc_set_value str_eq
overwritten = refl

opc_get_value-opc_set_value_example : opc_get_value writing (codes "type") ≡ some (codes "syswrite")
unfolding str_eq nonempty
opc_get_value-opc_set_value_example =
    opc_get_value-opc_set_value reading (codes "type") (codes "syswrite") (codes "type") overwritten

replay-opc_store_example :
    (opc' : OpControl) × (replay opc_store
        ((codes "type", codes "write") ∷ (codes "reverse", []) ∷ [])
        reading
      ≡ some opc')
    × ((j : CString)
        → opc_get_value opc' j
          ≡ written
              ((codes "type", codes "write") ∷ (codes "reverse", []) ∷ [])
              (opc_get_value reading)
              j)
replay-opc_store_example =
    replay-opc_store ((codes "type", codes "write") ∷ (codes "reverse", []) ∷ []) reading
      (omega arith) ((omega arith, omega arith), ((omega arith, omega arith), tt)) (omega arith, tt)
