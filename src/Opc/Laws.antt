-- ===== src/Opc/Laws.antt =====
-- What a caller can rely on after `opc_set_value`.
use mm_regression.Base.{
  ℕ, ◌+◌, ◌≤◌, ◌<◌, ◌≡◌, ap, inl, inr, List, [], ◌∷◌, some, arith, length, if◌then◌else◌,
  Bool-cases, Option-cases, ◌||◌, All,
}
use mm_regression.Base.Text.{CString, str_eq, str_eq→eq, str_eq_euclid}
use mm_regression.Opc.{
  Arg, OpControl, max_args, new_room, defined_in, opc_defined, nonempty, value_in, opc_get_value,
  set_in, opc_set_value,
}

-- One step of `opc_set_value` over the first argument.
set_in-value :
    (i : ℕ) (key value j : CString) (args : List Arg) {args' : List Arg}
    → set_in i key value args ≡ some args'
    → value_in j args' ≡ (if str_eq key j then nonempty value else value_in j args)
unfolding set_in value_in
set_in-value i key value j [] h = ground arith
set_in-value i key value j (a ∷ args) h = elim (Bool-cases (str_eq a.key key)) [
  | inl same ↦ ground (arith, ap (λ k. str_eq k j) (str_eq→eq a.key key same))
  | inr other ↦ elim (Option-cases (set_in (i + 1) key value args)) [
    | inl overflow ↦ ground arith
    | inr rest ↦
        ground (arith, set_in-value (i + 1) key value j args rest.1, str_eq_euclid a.key key j)
  ]
]

set_in-defined :
    (i : ℕ) (key value j : CString) (args : List Arg) {args' : List Arg}
    → set_in i key value args ≡ some args'
    → defined_in j args' ≡ (str_eq key j || defined_in j args)
unfolding set_in defined_in
set_in-defined i key value j [] h = ground arith
set_in-defined i key value j (a ∷ args) h = elim (Bool-cases (str_eq a.key key)) [
  | inl same ↦ ground (arith, ap (λ k. str_eq k j) (str_eq→eq a.key key same))
  | inr other ↦ elim (Option-cases (set_in (i + 1) key value args)) [
    | inl overflow ↦ ground arith
    | inr rest ↦ ground (arith, set_in-defined (i + 1) key value j args rest.1)
  ]
]

-- Where `opc_set_value` stays inside its buffers, the key reads back as the new value (NULL for
-- the empty text), and every other key reads as before.
pub opc_get_value-opc_set_value :
    (opc : OpControl) (key value j : CString) {opc' : OpControl}
    → opc_set_value opc key value ≡ some opc'
    → opc_get_value opc' j ≡ (if str_eq key j then nonempty value else opc_get_value opc j)
unfolding opc_set_value opc_get_value
opc_get_value-opc_set_value opc key value j h = elim (Option-cases (set_in 0 key value opc.args)) [
  | inl overflow ↦ ground arith
  | inr rest ↦ ground (arith, set_in-value 0 key value j opc.args rest.1)
]

-- The arguments that are defined afterwards are those before and the new one.
pub opc_defined-opc_set_value :
    (opc : OpControl) (key value j : CString) {opc' : OpControl}
    → opc_set_value opc key value ≡ some opc'
    → opc_defined opc' j ≡ (str_eq key j || opc_defined opc j)
unfolding opc_set_value opc_defined
opc_defined-opc_set_value opc key value j h = elim (Option-cases (set_in 0 key value opc.args)) [
  | inl overflow ↦ ground arith
  | inr rest ↦ ground (arith, set_in-defined 0 key value j opc.args rest.1)
]

-- Every value has a buffer of at least 64 bytes, as the parser and `opc_set_value` allocate it.
abbrev pub IsRoomy : List Arg → Type 0
IsRoomy args = All (λ a. new_room ≤ a.room) args

set_in-total :
    (i : ℕ) (key value : CString) (args : List Arg)
    → i + length args < max_args
    → length key < new_room
    → length value < new_room
    → IsRoomy args
    → (args' : List Arg) × (set_in i key value args ≡ some args')
      × IsRoomy args'
      × (length args' ≤ length args + 1)
unfolding set_in
set_in-total i key value [] full k v roomy = (
  record { key = key; value = value; room = new_room } ∷ [],
  ground arith,
  (omega arith, tt),
  omega arith,
)
set_in-total i key value (a ∷ args) full k v roomy =
    let rest = set_in-total (i + 1) key value args (omega arith) k v roomy.1 in
    elim (Bool-cases (str_eq a.key key)) [
      | inl same ↦ (record a { value = value } ∷ args, ground arith, roomy, omega arith)
      | inr other ↦ (a ∷ rest.0, ground arith, (roomy.0, rest.2), omega arith)
    ]

-- With fewer than ten arguments, each in a buffer of at least 64 bytes, and with a key and a value
-- below 64 bytes `opc_set_value` stays inside its buffers, and adds at most one argument, in such a
-- buffer.
pub opc_set_value_total :
    (opc : OpControl) (key value : CString)
    → length opc.args < max_args
    → length key < new_room
    → length value < new_room
    → IsRoomy opc.args
    → (opc' : OpControl) × (opc_set_value opc key value ≡ some opc')
      × IsRoomy opc'.args
      × (length opc'.args ≤ length opc.args + 1)
unfolding opc_set_value
opc_set_value_total opc key value full k v roomy =
    let rest = set_in-total 0 key value opc.args (omega arith) k v roomy in
    (record opc { args = rest.0 }, ground arith, rest.2, rest.3)
