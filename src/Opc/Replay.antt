-- ===== src/Opc/Replay.antt =====
-- A run of writes to the arguments of an operation, which all have their place.
use mm_regression.Base.{◌+◌, ◌<◌, ◌≤◌, ◌≡◌, ◌∙◌, arith, List, [], ◌∷◌, some, length, All}
use mm_regression.Base.Text.{CString}
use mm_regression.Opc.{OpControl, max_args, new_room, opc_get_value}
use mm_regression.Opc.Laws.{IsRoomy, opc_set_value_total}
use mm_regression.Opc.Store.{opc_store, replay, written, replay-none, replay-first, replay-refines}

-- The keys and the values fit the buffers of `opc_set_value`.
abbrev pub AllFit : List (CString × CString) → Type 0
AllFit writes = All (λ w. (length w.0 < new_room) × (length w.1 < new_room)) writes

replay-total :
    (writes : List (CString × CString)) (opc : OpControl)
    → length opc.args + length writes ≤ max_args
    → AllFit writes
    → IsRoomy opc.args
    → (opc' : OpControl) × (replay opc_store writes opc ≡ some opc')
replay-total [] opc full fit roomy = (opc, replay-none opc_store opc)
replay-total ((key, value) ∷ writes) opc full fit roomy =
    let (next, done, roomy', long) =
      opc_set_value_total opc key value (omega arith) fit.0.0 fit.0.1 roomy in
    let (last, all) = replay-total writes next (omega arith) fit.1 roomy' in
    (last, replay-first opc_store key value writes opc next done ∙ all)

-- With room for as many arguments as there are writes, keys and values below 64 bytes and buffers
-- of at least 64 bytes, a run of calls of `opc_set_value` stays inside its buffers, and then every
-- key reads as in a map from keys to values to which the same writes were made in the same order.
pub replay-opc_store :
    (writes : List (CString × CString)) (opc : OpControl)
    → length opc.args + length writes ≤ max_args
    → AllFit writes
    → IsRoomy opc.args
    → (opc' : OpControl) × (replay opc_store writes opc ≡ some opc')
      × ((j : CString) → opc_get_value opc' j ≡ written writes (opc_get_value opc) j)
replay-opc_store writes opc full fit roomy =
    let (opc', done) = replay-total writes opc full fit roomy in
    (opc', done, λ j. replay-refines opc_store writes opc opc' j done)
