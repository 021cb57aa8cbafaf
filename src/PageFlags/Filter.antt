-- ===== src/PageFlags/Filter.antt =====
-- The filter that the text of `pageflags` becomes.
use mm_regression.Base.{
  ℕ, ◌≡◌, ◌≢◌, refl, [], ◌∷◌, Option, some, none, true, false, Option-cases, Bool-cases, inl, inr,
}
use mm_regression.Base.Text.{CString}
use mm_regression.Libc.{after_char}
use mm_regression.PageFlags.{
  Filters, add_bits_filter, parse_bits_mask, parse_flag_names, is_first, ◌>>=◌,
}

abbrev fatal : Option Filters
fatal = none

-- A chain that ends in a fatal error.
fails : (o : Option ℕ) → (o >>= λ _. fatal) ≡ none
fails none = refl
fails (some a) = refl

fails_twice : (o p : Option ℕ) → (o >>= λ _. p >>= λ _. fatal) ≡ none
fails_twice none p = refl
fails_twice (some a) p = fails p

-- Once there is a filter, another is fatal, whatever its text is.
pub parse_bits_mask-cons :
    (f : ℕ × ℕ) (fs : Filters) (optarg : CString) → parse_bits_mask (f ∷ fs) optarg ≡ none
unfolding parse_bits_mask add_bits_filter
parse_bits_mask-cons f fs optarg = elim (Option-cases (after_char b'=' optarg)) [
  | inr (after, equal) ↦
      rw (equal, parse_bits_mask)
        (elim (Bool-cases (is_first b'=' optarg)) [
          | inl first ↦ rw first (fails (parse_flag_names after false))
          | inr later ↦
              rw later (fails_twice (parse_flag_names optarg false) (parse_flag_names after false))
        ])
  | inl no_equal ↦
      rw (no_equal, parse_bits_mask)
        (elim (Option-cases (after_char b'~' optarg)) [
          | inr (_, tilde) ↦
              rw tilde (fails_twice (parse_flag_names optarg true) (parse_flag_names optarg false))
          | inl no_tilde ↦ rw no_tilde (fails (parse_flag_names optarg false))
        ])
]

pub parse_bits_mask_full :
    (fs : Filters) (optarg : CString) → fs ≢ [] → parse_bits_mask fs optarg ≡ none
parse_bits_mask_full [] optarg h = absurd (h refl)
parse_bits_mask_full (f ∷ fs) optarg h = parse_bits_mask-cons f fs optarg
