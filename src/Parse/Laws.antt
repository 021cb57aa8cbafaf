-- ===== src/Parse/Laws.antt =====
-- What the parser of operations lets through.
use mm_regression.Base.{
  ℕ, ◌<◌, ◌≡◌, refl, sym, ap, ◌∙◌, ◌⊎◌, inl, inr, List, [], ◌∷◌, ◌++◌, Option, Bool, true, arith,
  ltb, leb, ◌||◌, length, map, All, All-append, Bool-cases,
}
use mathlib.Core.Path.{subst}
use mathlib.Core.List.{append-nil, append_assoc}
use mm_regression.Base.Text.{CString, codes, str_eq}
use mm_regression.Libc.{strtok, scan_key_value}
use mm_regression.Opc.{Arg, OpControl, max_args}
use mm_regression.Parse.{
  Parsed, ok, unsupported, overrun, ◌>>=◌, is_supported, parse_arg, parse_operation_arg,
  parse_tokens, parse_operation_args, get_op_index, blank, key_size, value_size,
}

-- The keys that every operation takes.
abbrev pub is_common : CString → Bool
is_common key =
    str_eq key (codes "wait_before")
    || (str_eq key (codes "wait_after") || str_eq key (codes "tag"))

-- A key that the operation takes, in buffers that hold the key and the value.
pub record IsAccepted (op_idx : Option ℕ) (a : Arg) : Type 0 where
  pub taken : (is_common a.key ≡ true) ⊎ (is_supported op_idx a.key ≡ ok true)
  pub key_fits : length a.key < key_size
  pub value_fits : length a.value < a.room
  pub room : a.room ≡ value_size

-- A key that the operation takes, or that all take.
abbrev pub IsTaken : Option ℕ → Arg → Type 0
IsTaken op_idx a = (is_common a.key ≡ true) ⊎ (is_supported op_idx a.key ≡ ok true)

-- What a token says: the text before and behind the first `=`.
abbrev pub argument : CString → Arg
argument token = record {
  key = (scan_key_value token).0;
  value = (scan_key_value token).1;
  room = value_size;
}

parse_arg-IsTaken :
    (op_idx : Option ℕ) (opc : OpControl) (arg : CString) {opc' : OpControl}
    → parse_arg op_idx opc arg ≡ ok opc'
    → (opc'.args ≡ opc.args ++ (argument arg ∷ []))
      × IsTaken op_idx (argument arg)
      × (opc'.name ≡ opc.name)
unfolding parse_arg
parse_arg-IsTaken op_idx opc arg h = (ground arith, ground arith, ground arith)

abbrev pub AllTaken : Option ℕ → OpControl → Type 0
AllTaken op_idx opc = All (IsTaken op_idx) opc.args

-- A chain that succeeds succeeds in its first part.
>>=-ok :
    {A B : Type 0} (next : A → Parsed B) (b : B) (first : Parsed A)
    → (first >>= next) ≡ ok b
    → (a : A) × (next a ≡ ok b) × (first ≡ ok a)
>>=-ok next b unsupported e = cc
>>=-ok next b overrun e = cc
>>=-ok next b (ok a) e = (a, e, refl)

parse_operation_arg-AllTaken :
    (op_idx : Option ℕ) (args : List CString) (opc : OpControl) {opc' : OpControl}
    → AllTaken op_idx opc
    → parse_operation_arg op_idx opc args ≡ ok opc'
    → AllTaken op_idx opc' × (opc'.name ≡ opc.name) × (opc'.args ≡ opc.args ++ map argument args)
unfolding parse_operation_arg
parse_operation_arg-AllTaken op_idx [] opc {opc'} h e =
    let same : opc ≡ opc' = ground arith in
    subst (λ o. AllTaken op_idx o × (o.name ≡ opc.name) × (o.args ≡ opc.args ++ [])) same
      (h, refl, sym (append-nil opc.args))
parse_operation_arg-AllTaken op_idx (arg ∷ args) opc {opc'} h e =
    let (mid, q, p) =
      >>=-ok (λ o. parse_operation_arg op_idx o args) opc' (parse_arg op_idx opc arg) e in
    let (grown, accepted, named) = parse_arg-IsTaken op_idx opc arg p in
    let every : AllTaken op_idx mid =
      subst (All (IsTaken op_idx)) (sym grown)
        (All-append (IsTaken op_idx) opc.args (argument arg ∷ []) h (accepted, tt)) in
    let rest = parse_operation_arg-AllTaken op_idx args mid every q in
    (
      rest.0,
      rest.1 ∙ named,
      rest.2
          ∙ ap (λ l. l ++ map argument args) grown
          ∙ append_assoc opc.args (argument arg ∷ []) (map argument args),
    )

-- Where the parser lets a text through, the operation has the name that the text begins with and
-- just the arguments that follow there, each as its key and its value and in their order; and the
-- operation takes the key of each of them, or all operations do.
pub parse_operation_args-AllTaken :
    (str : CString) {opc : OpControl}
    → parse_operation_args str ≡ ok opc
    → AllTaken (get_op_index opc.name) opc
      × ((args : List CString) × (strtok b':' str ≡ opc.name ∷ args)
          × (opc.args ≡ map argument args))
unfolding parse_operation_args parse_tokens
parse_operation_args-AllTaken str {opc} h = elim (Bool-cases (ltb (length str) 256)) [
  | inl fits ↦ tokens (strtok b':' str) (rw fits at h)
  | inr long ↦ absurd (ground arith)
]
  where
    tokens :
        (ts : List CString)
        → parse_tokens ts ≡ ok opc
        → AllTaken (get_op_index opc.name) opc
          × ((args : List CString) × (ts ≡ opc.name ∷ args) × (opc.args ≡ map argument args))
    tokens [] e = absurd (ground arith)
    tokens (name ∷ args) e = elim (Bool-cases (leb (length args) max_args)) [
      | inl few ↦
          let all =
            parse_operation_arg-AllTaken (get_op_index name) args (blank name) tt (rw few at e) in
          (
            subst (λ n. AllTaken (get_op_index n) opc) (sym all.1) all.0,
            (args, ap (λ n. n ∷ args) (sym all.1), all.2),
          )
      | inr many ↦ absurd (ground arith)
    ]
