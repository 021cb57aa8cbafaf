-- ===== src/Parse.antt =====
-- lib/include.h: how the text of -L becomes operations, each with its arguments.
pub mod Table
pub mod Laws
pub mod Names
pub mod RoundTrip
pub mod Tests
use mm_regression.Base.{
  ℕ, zero, suc, ◌+◌, ◌*◌, List, [], ◌∷◌, ◌++◌, Option, none, some, Bool, true, false, ltb, leb,
  ◌==◌, ◌&&◌, ◌||◌, length, get_elem?, if◌then◌else◌,
}
use mm_regression.Base.Text.{CString, codes, str_eq}
use mm_regression.Libc.{strtok, scan_key_value}
use mm_regression.Opc.{Arg, OpControl, max_args}
use Table.{operation_name, op_supported_args}

-- What parsing ends in. `unsupported` is `errmsg` and `overrun` undefined behaviour: a buffer
-- that is too small, a null pointer, or the value of `get_op_index` where it returns none.
pub data Parsed (A : Type 0) : Type 0 where
  ok : A → Parsed A
  unsupported overrun : Parsed A

infixl 5 ◌>>=◌
abbrev ◌>>=◌ : {A B : Type 0} → Parsed A → (A → Parsed B) → Parsed B
ok a >>= f = f a
unsupported >>= f = unsupported
overrun >>= f = overrun

index_of : CString → List CString → ℕ → Option ℕ
index_of name [] i = none
index_of name (n ∷ names) i =
    let rest = index_of name names (i + 1) in if str_eq n name then some i else rest

-- `none` where the function ends with no `return`
pub get_op_index : CString → Option ℕ
unfolding index_of
get_op_index name = index_of name operation_name 0

-- `while (op_supported_args[op_idx][j])`
pub contains : CString → List CString → Bool
contains key [] = false
contains key (k ∷ keys) = let rest = contains key keys in if str_eq k key then true else rest

pub is_supported : Option ℕ → CString → Parsed Bool
is_supported none key = overrun
is_supported (some op_idx) key = elim (get_elem? op_supported_args op_idx) [
  | none ↦ overrun
  | some keys ↦ ok (contains key keys)
]

-- The sizes of the buffers for a key and a value.
abbrev pub key_size : ℕ
key_size = 64

abbrev pub value_size : ℕ
value_size = 128

-- One round of the loop of `parse_operation_arg`: the argument `i` as it is written.
pub parse_arg : Option ℕ → OpControl → CString → Parsed OpControl
unfolding is_supported
parse_arg op_idx opc arg =
    let (key, value) = scan_key_value arg in
    let i = length opc.args in
    let opc' = record opc {
      args = opc.args ++ (record { key = key; value = value; room = value_size } ∷ []);
    } in
    if ltb (length key) key_size && ltb (length value) value_size
    then (if str_eq key (codes "wait_before")
        then ok (record opc' { wait_before = true })
        else if str_eq key (codes "wait_after")
        then ok (record opc' { wait_after = true })
        else if str_eq key (codes "tag")
        then ok (record opc' { tag = some i })
        else (do supported ← is_supported op_idx key; if supported then ok opc' else unsupported))
    else overrun

pub parse_operation_arg : Option ℕ → OpControl → List CString → Parsed OpControl
unfolding parse_arg
parse_operation_arg op_idx opc [] = ok opc
parse_operation_arg op_idx opc (arg ∷ args) = do
  opc' ← parse_arg op_idx opc arg
  parse_operation_arg op_idx opc' args

abbrev pub blank : CString → OpControl
blank name = record { name = name; wait_before = false; wait_after = false; tag = none; args = [] }

-- The tokens of an operation: its name, and at most ten arguments.
parse_tokens : List CString → Parsed OpControl
unfolding parse_operation_arg
parse_tokens [] = overrun
parse_tokens (name ∷ args) =
    if leb (length args) max_args
    then parse_operation_arg (get_op_index name) (blank name) args
    else overrun

-- The copy of the text has 256 bytes.
pub parse_operation_args : CString → Parsed OpControl
unfolding parse_tokens
parse_operation_args str = if ltb (length str) 256 then parse_tokens (strtok b':' str) else overrun

-- The elements of `op_strings` before the first NULL; the array has 256 elements.
pub parse_operations : CString → Parsed (List CString)
parse_operations str = let ops = strtok b' ' str in if ltb (length ops) 256 then ok ops else overrun
