-- ===== src/PageFlags/Frame.antt =====
-- The page frame number in a word of pagemap.
use mm_regression.Base.{ℕ, ◌%◌, ◌^◌, ◌≡◌, refl, Bool-cases, inl, inr, if◌then◌else◌}
use mm_regression.Base.Bits.{test_bit, bit_and-pow_test}
use mm_regression.Base.Bits.Mask.{bit_and-mask}
use mm_regression.PageFlags.{pagemap_pfn}

-- The frame of a page: the low 55 bits of its word in pagemap where bit 63 is set, and else none.
abbrev pub frame_of : ℕ → ℕ
frame_of word = if test_bit word 63 then word % 2 ^ 55 else 0

pub pagemap_pfn_lem : (word : ℕ) → pagemap_pfn word ≡ frame_of word
unfolding pagemap_pfn
pagemap_pfn_lem word = elim (Bool-cases (test_bit word 63)) [
  | inl present ↦ rw (bit_and-pow_test 63 word, present) (bit_and-mask 55 word)
  | inr absent ↦ rw (bit_and-pow_test 63 word, absent) refl
]
