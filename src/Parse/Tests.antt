-- ===== src/Parse/Tests.antt =====
-- Runs of the parser of operations.
use mm_regression.Base.{◌≡◌, refl, List, [], ◌∷◌, inr, none, true, false, arith, All, map}
use mm_regression.Base.Text.{CString, codes, str_eq}
use mm_regression.Libc.{strtok, scan_key_value}
use mm_regression.Libc.Scan.{print_arg}
use mm_regression.Libc.Tokens.{join}
use mm_regression.Opc.{OpControl, opc_defined}
use mm_regression.Parse.{
  ok, unsupported, overrun, parse_operation_args, get_op_index, is_supported, contains,
}
use mm_regression.Parse.Laws.{AllTaken, argument, parse_operation_args-AllTaken}
use mm_regression.Parse.RoundTrip.{IsWritable, stored, print_operation, parse-print_operation}

abbrev waiting : OpControl
waiting = record {
  name = codes "access";
  wait_before = true;
  wait_after = false;
  tag = none;
  args =
      record { key = codes "type"; value = codes "read"; room = 128 }
      ∷ record { key = codes "wait_before"; value = []; room = 128 }
      ∷ [];
}

read : parse_operation_args (codes "access:type=read:wait_before") ≡ ok waiting
unfolding parse_operation_args strtok scan_key_value str_eq get_op_index contains
read = refl

unsupported_key : parse_operation_args (codes "munmap:type=read") ≡ unsupported
unfolding parse_operation_args strtok scan_key_value str_eq get_op_index contains
unsupported_key = refl

no_such_operation : parse_operation_args (codes "acces:type=read") ≡ overrun
unfolding parse_operation_args strtok scan_key_value str_eq get_op_index contains
no_such_operation = refl

parse_operation_args-AllTaken_example :
    AllTaken (get_op_index (codes "access")) waiting
    × ((args : List CString) × (strtok b':' (codes "access:type=read:wait_before")
          ≡ codes "access" ∷ args)
        × (waiting.args ≡ map argument args))
parse_operation_args-AllTaken_example =
    parse_operation_args-AllTaken (codes "access:type=read:wait_before") read

taken : is_supported (get_op_index (codes "access")) (codes "type") ≡ ok true
unfolding get_op_index is_supported str_eq contains
taken = refl

abbrev pairs : List (CString × CString)
pairs = (codes "type", codes "read") ∷ []

writable : All (IsWritable (get_op_index (codes "access"))) pairs
unfolding print_arg
writable = (
  record {
    key_nonempty = tt;
    key_avoids = ground arith;
    value_spaceless = ground arith;
    token = ground arith;
    accepted = record {
      taken = inr taken;
      key_fits = omega arith;
      value_fits = omega arith;
      room = refl;
    };
  },
  tt,
)

parse-print_operation_example :
    (opc : OpControl) × (parse_operation_args (print_operation (codes "access") pairs) ≡ ok opc)
    × (opc.name ≡ codes "access")
    × (opc.args ≡ map stored pairs)
    × (opc.wait_before ≡ opc_defined opc (codes "wait_before"))
    × (opc.wait_after ≡ opc_defined opc (codes "wait_after"))
unfolding print_operation print_arg join
parse-print_operation_example =
    parse-print_operation (codes "access") pairs (ground arith) writable (omega arith) (omega arith)

pub unknown : get_op_index (codes "acces") ≡ none
unfolding get_op_index str_eq
unknown = refl
