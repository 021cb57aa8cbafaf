-- ===== src/Gigantic/Parse.antt =====
-- lib/hugetlb_1gb.c: how an argument of the program becomes an operation. Unlike the parser of
-- lib/include.h it takes every key, in buffers of 64 bytes.
use mm_regression.Base.{
  List, [], ◌∷◌, ◌++◌, Option, none, some, true, ltb, leb, ◌&&◌, length, if◌then◌else◌,
}
use mm_regression.Base.Text.{CString, codes, str_eq}
use mm_regression.Libc.{strtok, scan_key_value}
use mm_regression.Opc.{OpControl, max_args, new_room}
use mm_regression.Parse.{blank}

-- One round of the loop of `parse_operation_arg`. `none` is a buffer that is too small.
pub read_arg : OpControl → CString → Option OpControl
read_arg opc arg =
    let (key, value) = scan_key_value arg in
    let i = length opc.args in
    let opc' = record opc {
      args = opc.args ++ (record { key = key; value = value; room = new_room } ∷ []);
    } in
    if ltb (length key) new_room && ltb (length value) new_room
    then some (
        if str_eq key (codes "wait_before")
        then record opc' { wait_before = true }
        else if str_eq key (codes "wait_after")
        then record opc' { wait_after = true }
        else if str_eq key (codes "tag")
        then record opc' { tag = some i }
        else opc')
    else none

pub read_args : OpControl → List CString → Option OpControl
unfolding read_arg
read_args opc [] = some opc
read_args opc (arg ∷ args) = elim (read_arg opc arg) [
  | none ↦ none
  | some opc' ↦ read_args opc' args
]

-- The tokens of an operation: its name, and at most ten arguments.
read_tokens : List CString → Option OpControl
unfolding read_args
read_tokens [] = none
read_tokens (name ∷ args) = if leb (length args) max_args then read_args (blank name) args else none

-- The copy of the text has 256 bytes.
unfoldable pub read_operation : CString → Option OpControl
unfolding read_tokens
read_operation str = if ltb (length str) 256 then read_tokens (strtok b':' str) else none
