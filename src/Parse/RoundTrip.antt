-- ===== src/Parse/RoundTrip.antt =====
-- An operation that is written as the test scripts write it is read back by the parser.
use mm_regression.Base.{
  ℕ, suc, ◌≤◌, ◌<◌, ◌≡◌, refl, sym, ap, ◌∙◌, inl, inr, List, [], ◌∷◌, ◌++◌, Option, some, true,
  false, arith, ltb, leb, ◌||◌, Bool-cases, length, if◌then◌else◌, All, map, lt→ltb, le→leb,
}
use mathlib.Core.List.{append-nil, append_assoc}
use mathlib.Core.Path.{subst}
use mm_regression.Base.Text.{CString, codes, str_eq, str_eq→eq}
use mm_regression.Libc.{strtok}
use mm_regression.Libc.Tokens.{IsToken, IsNonempty, Avoids, join, strtok-join}
use mm_regression.Libc.Scan.{IsSpaceless, print_arg, scan_key_value-print_arg}
use mm_regression.Opc.{Arg, OpControl, max_args, opc_defined, defined_in}
use mm_regression.Parse.{
  ok, ◌>>=◌, parse_arg, parse_operation_arg, parse_tokens, parse_operation_args, get_op_index,
  blank, value_size,
}
use mm_regression.Parse.Laws.{IsAccepted}

-- The arguments as the parser stores them.
abbrev pub stored : CString × CString → Arg
stored (key, value) = record { key = key; value = value; room = value_size }

-- A key and a value that can be written down and that the operation takes.
pub record IsWritable (op_idx : Option ℕ) (kv : CString × CString) : Type 0 where
  pub key_nonempty : IsNonempty kv.0
  pub key_avoids : Avoids b'=' kv.0
  pub value_spaceless : IsSpaceless kv.1
  pub token : IsToken b':' (print_arg kv.0 kv.1)
  pub accepted : IsAccepted op_idx (stored kv)

abbrev wait_before : CString
wait_before = codes "wait_before"

abbrev wait_after : CString
wait_after = codes "wait_after"

abbrev tag : CString
tag = codes "tag"

-- The state of the parser after one more argument.
accept : OpControl → CString × CString → OpControl
accept opc (key, value) = record {
  name = opc.name;
  wait_before = opc.wait_before || str_eq key wait_before;
  wait_after = opc.wait_after || str_eq key wait_after;
  tag = if str_eq key tag then some (length opc.args) else opc.tag;
  args = opc.args ++ (stored (key, value) ∷ []);
}

pub accept_all : OpControl → List (CString × CString) → OpControl
accept_all opc [] = opc
accept_all opc (kv ∷ kvs) = accept_all (accept opc kv) kvs

-- One key is not two of the common ones.
exclusive : (k s t : CString) → str_eq s t ≡ false → str_eq k s ≡ true → str_eq k t ≡ false
exclusive k s t ne h = elim (Bool-cases (str_eq k t)) [
  | inl both ↦
      let e : k ≡ s = str_eq→eq k s h in
      let clash : str_eq s t ≡ true = subst (λ x. str_eq x t ≡ true) e both in cc
  | inr other ↦ other
]

before_not_after : (k : CString) → str_eq k wait_before ≡ true → str_eq k wait_after ≡ false
unfolding str_eq
before_not_after k = exclusive k wait_before wait_after refl

before_not_tag : (k : CString) → str_eq k wait_before ≡ true → str_eq k tag ≡ false
unfolding str_eq
before_not_tag k = exclusive k wait_before tag refl

after_not_tag : (k : CString) → str_eq k wait_after ≡ true → str_eq k tag ≡ false
unfolding str_eq
after_not_tag k = exclusive k wait_after tag refl

read_one :
    (op_idx : Option ℕ) (opc : OpControl) (kv : CString × CString)
    → IsWritable op_idx kv
    → parse_arg op_idx opc (print_arg kv.0 kv.1) ≡ ok (accept opc kv)
unfolding parse_arg accept
read_one op_idx opc (key, value) h =
    rw
      (
        scan_key_value-print_arg key value h.key_nonempty h.key_avoids h.value_spaceless,
        lt→ltb _ _ h.accepted.key_fits,
        lt→ltb (length value) 128 h.accepted.value_fits,
        parse_arg,
      )
      (ground
        (arith, h.accepted.taken, before_not_after key, before_not_tag key, after_not_tag key))

-- `key=value`, or the key alone.
abbrev pub print_pair : CString × CString → CString
print_pair (key, value) = print_arg key value

-- The text of an operation.
unfoldable pub print_operation : CString → List (CString × CString) → CString
print_operation name kvs = join b':' (name ∷ map print_pair kvs)

read_every :
    (op_idx : Option ℕ) (kvs : List (CString × CString)) (opc : OpControl)
    → All (IsWritable op_idx) kvs
    → parse_operation_arg op_idx opc (map print_pair kvs) ≡ ok (accept_all opc kvs)
unfolding parse_operation_arg accept_all
read_every op_idx [] opc h = refl
read_every op_idx (kv ∷ kvs) opc h =
    ap (λ r. r >>= λ o. parse_operation_arg op_idx o (map print_pair kvs))
      (read_one op_idx opc kv h.0)
    ∙ read_every op_idx kvs (accept opc kv) h.1

-- What the parser has stored after the arguments `kvs`.
record HasRead (opc : OpControl) (kvs : List (CString × CString)) (opc' : OpControl) : Type 0 where
  pub name : opc'.name ≡ opc.name
  pub args : opc'.args ≡ opc.args ++ map stored kvs
  pub before : opc'.wait_before ≡ (opc.wait_before || defined_in wait_before (map stored kvs))
  pub after : opc'.wait_after ≡ (opc.wait_after || defined_in wait_after (map stored kvs))

accept_all-HasRead :
    (kvs : List (CString × CString)) (opc : OpControl) → HasRead opc kvs (accept_all opc kvs)
unfolding accept_all accept defined_in
accept_all-HasRead [] opc = record {
  name = refl;
  args = sym (append-nil opc.args);
  before = ground arith;
  after = ground arith;
}
accept_all-HasRead ((key, value) ∷ kvs) opc =
    let rest = accept_all-HasRead kvs (accept opc (key, value)) in
    record {
      name = rest.name;
      args = rest.args ∙ append_assoc opc.args (stored (key, value) ∷ []) (map stored kvs);
      before = ground (arith, rest.before);
      after = ground (arith, rest.after);
    }

All-tokens :
    (op_idx : Option ℕ) (kvs : List (CString × CString))
    → All (IsWritable op_idx) kvs
    → All (IsToken b':') (map print_pair kvs)
All-tokens op_idx [] h = tt
All-tokens op_idx (kv ∷ kvs) h = (h.0.token, All-tokens op_idx kvs h.1)

length-map {ℓ κ} :
    {A : Type ℓ} {B : Type κ} (f : A → B) (xs : List A) → length (map f xs) ≡ length xs
length-map f [] = refl
length-map f (x ∷ xs) = ap suc (length-map f xs)

-- An operation of at most ten writable arguments, in fewer than 256 bytes, is read back: its
-- name, its arguments in order, and whether the process waits before and after it.
pub parse-print_operation :
    (name : CString) (kvs : List (CString × CString))
    → IsToken b':' name
    → All (IsWritable (get_op_index name)) kvs
    → length kvs ≤ max_args
    → length (print_operation name kvs) < 256
    → (opc : OpControl) × (parse_operation_args (print_operation name kvs) ≡ ok opc)
      × (opc.name ≡ name)
      × (opc.args ≡ map stored kvs)
      × (opc.wait_before ≡ opc_defined opc (codes "wait_before"))
      × (opc.wait_after ≡ opc_defined opc (codes "wait_after"))
unfolding parse_operation_args parse_tokens opc_defined print_operation
parse-print_operation name kvs token writable few short =
    let op_idx = get_op_index name in
    let opc = accept_all (blank name) kvs in
    let has = accept_all-HasRead kvs (blank name) in
    let tokens : strtok b':' (print_operation name kvs) ≡ name ∷ map print_pair kvs =
      strtok-join b':' (name ∷ map print_pair kvs) (token, All-tokens op_idx kvs writable) in
    let count : leb (length (map print_pair kvs)) max_args ≡ true =
      rw length-map (le→leb _ _ few) in
    let fits : ltb (length (print_operation name kvs)) 256 ≡ true = lt→ltb _ _ short in
    (
      opc,
      rw (fits, tokens, parse_tokens) (rw count (read_every op_idx kvs (blank name) writable)),
      has.name,
      has.args,
      has.before ∙ ap (defined_in wait_before) (sym has.args),
      has.after ∙ ap (defined_in wait_after) (sym has.args),
    )
