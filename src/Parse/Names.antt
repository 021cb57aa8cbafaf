-- ===== src/Parse/Names.antt =====
-- The names of operations that `get_op_index` knows.
use mm_regression.Base.{
  ℕ, ◌+◌, ◌≡◌, ap, ◌∙◌, List, [], ◌∷◌, none, Bool, true, false, Bool-cases, inl, inr, arith,
}
use mm_regression.Base.Text.{CString, str_eq, str_eq→eq}
use mm_regression.Parse.{get_op_index, index_of, contains}
use mm_regression.Parse.Table.{operation_name}

-- The table of operations has the name.
unfoldable pub is_operation : CString → Bool
unfolding contains str_eq
is_operation n = contains n operation_name

index_of-none :
    (name : CString) (names : List CString) (i : ℕ) (n : CString)
    → index_of name names i ≡ none
    → contains n names ≡ true
    → str_eq name n ≡ false
unfolding index_of contains
index_of-none name [] i n h e = absurd (ground arith)
index_of-none name (m ∷ names) i n h e = elim (Bool-cases (str_eq m n)) [
  | inl here ↦
      let other : str_eq m name ≡ false = ground arith in
      elim (Bool-cases (str_eq name n)) [
        | inl equal ↦
            let clash : str_eq m name ≡ true = ap (str_eq m) (str_eq→eq name n equal) ∙ here in
            absurd (ground arith)
        | inr differ ↦ differ
      ]
  | inr there ↦ index_of-none name names (i + 1) n (ground arith) (ground arith)
]

-- A name with no index is none of the table.
pub get_op_index-none :
    (name n : CString) → get_op_index name ≡ none → is_operation n ≡ true → str_eq name n ≡ false
unfolding get_op_index is_operation
get_op_index-none name n h e = index_of-none name operation_name 0 n h e
