-- ===== src/Libc/Scan.antt =====
-- `key=value` comes back from `sscanf`, and so does a key alone.
use mm_regression.Base.{ℕ, ◌≡◌, refl, ◌∙◌, ap, [], ◌∷◌, ◌++◌, false, arith, All}
use mm_regression.Base.Text.{CString}
use mm_regression.Libc.{is_space, span_key, skip_spaces, word, value_after, scan_key_value}
use mm_regression.Libc.Tokens.{IsNonempty, Avoids}

abbrev pub IsSpaceless : CString → Type 0
IsSpaceless s = All (λ c. is_space c ≡ false) s

-- The way an argument of an operation is written.
unfoldable pub print_arg : CString → CString → CString
print_arg key [] = key
print_arg key (c ∷ value) = key ++ (b'=' ∷ c ∷ value)

span_key_all : (k : CString) → Avoids b'=' k → span_key k ≡ (k, [])
unfolding span_key
span_key_all [] h = refl
span_key_all (c ∷ k) h = ground (arith, span_key_all k, h.0)

span_key-append : (k r : CString) → Avoids b'=' k → span_key (k ++ (b'=' ∷ r)) ≡ (k, b'=' ∷ r)
unfolding span_key
span_key-append [] r h = ground arith
span_key-append (c ∷ k) r h = ground (arith, span_key-append k r, h.0)

word_all : (v : CString) → IsSpaceless v → word v ≡ v
unfolding word
word_all [] h = refl
word_all (c ∷ v) h = rw (h.0, word_all v h.1)

skip_spaces_none : (v : CString) → IsSpaceless v → skip_spaces v ≡ v
unfolding skip_spaces
skip_spaces_none [] h = refl
skip_spaces_none (c ∷ v) h = rw (h.0)

scan_of_span :
    (s r : CString) (c : ℕ) (k : CString)
    → span_key s ≡ (c ∷ k, r)
    → scan_key_value s ≡ (c ∷ k, value_after r)
unfolding scan_key_value
scan_of_span s r c k e =
    rw (e, scan_key_value) (ap (λ (p : CString × CString). (c ∷ k, value_after p.1)) e)

-- A key with no `=` and a value with no white space are read back.
pub scan_key_value-print_arg :
    (key value : CString)
    → IsNonempty key
    → Avoids b'=' key
    → IsSpaceless value
    → scan_key_value (print_arg key value) ≡ (key, value)
unfolding print_arg value_after
scan_key_value-print_arg [] value ne avoid spaceless = absurd ne
scan_key_value-print_arg (c ∷ key) [] ne avoid spaceless =
    scan_of_span (c ∷ key) [] c key (span_key_all (c ∷ key) avoid)
scan_key_value-print_arg (c ∷ key) (d ∷ value) ne avoid spaceless =
    scan_of_span _ (b'=' ∷ d ∷ value) c key (span_key-append (c ∷ key) (d ∷ value) avoid)
    ∙ ap (λ v. (c ∷ key, v))
        (ap word (skip_spaces_none (d ∷ value) spaceless) ∙ word_all (d ∷ value) spaceless)
