-- ===== src/Opc.antt =====
-- lib/include.h: `struct op_control` and the functions that read and write its arguments.
pub mod Laws
pub mod Store
pub mod Replay
pub mod Tests
use mm_regression.Base.{
  ℕ, suc, ◌+◌, List, [], ◌∷◌, Option, none, some, Bool, true, false, ltb, ◌&&◌, length,
  if◌then◌else◌,
}
use mm_regression.Base.Text.{CString, str_eq}
use mathlib.Core.Option

-- `keys[i]` and `values[i]`, with the size of the buffer that `values[i]` points to
pub record Arg : Type 0 where
  pub key : CString
  pub value : CString
  pub room : ℕ

-- `args` holds the first `nr_args` keys and values. `tag` is the index of the value that
-- `opc->tag` points to.
pub record OpControl : Type 0 where
  pub name : CString
  pub wait_before : Bool
  pub wait_after : Bool
  pub tag : Option ℕ
  pub args : List Arg

-- The arrays are allocated with 10 elements, a new key and a new value with 64 bytes.
abbrev pub max_args : ℕ
max_args = 10

abbrev pub new_room : ℕ
new_room = 64

unfoldable pub defined_in : CString → List Arg → Bool
defined_in key [] = false
defined_in key (a ∷ args) =
    let rest = defined_in key args in if str_eq a.key key then true else rest

unfoldable pub opc_defined : OpControl → CString → Bool
unfolding defined_in
opc_defined opc key = defined_in key opc.args

-- A value that is the empty text counts as NULL.
pub nonempty : CString → Option CString
nonempty [] = none
nonempty (c ∷ s) = some (c ∷ s)

value_in : CString → List Arg → Option CString
unfolding nonempty
value_in key [] = none
value_in key (a ∷ args) =
    let rest = value_in key args in if str_eq a.key key then nonempty a.value else rest

pub opc_get_value : OpControl → CString → Option CString
unfolding value_in
opc_get_value opc key = value_in key opc.args

-- `strcpy` into a buffer that is too small, and an eleventh argument, are undefined: `none`.
set_in : (i : ℕ) → CString → CString → List Arg → Option (List Arg)
set_in i key value [] =
    if ltb i max_args && ltb (length key) new_room && ltb (length value) new_room
    then some (record { key = key; value = value; room = new_room } ∷ [])
    else none
set_in i key value (a ∷ args) =
    let rest = set_in (i + 1) key value args in
    if str_eq a.key key
    then (if ltb (length value) a.room then some (record a { value = value } ∷ args) else none)
    else Option.map (λ more. a ∷ more) rest

-- The value that the function returns is not read by its callers.
pub opc_set_value : OpControl → CString → CString → Option OpControl
unfolding set_in
opc_set_value opc key value =
    Option.map (λ args. record opc { args = args }) (set_in 0 key value opc.args)
