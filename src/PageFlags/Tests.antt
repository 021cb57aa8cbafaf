-- ===== src/PageFlags/Tests.antt =====
-- Runs of the page flags.
use mm_regression.Base.{◌≡◌, refl, arith, false, ◌∷◌, [], some}
use mm_regression.Base.Text.{codes}
use mm_regression.Base.Bits.{test_bit}
use mm_regression.Libc.{after_char, strncmp_eq}
use mm_regression.PageFlags.{well_known_flags, parse_bits_mask}
use mm_regression.PageFlags.Bits.{well_known_flags_lem}

-- A tail page that is in use and referenced: the tail flag is hidden.
well_known_flags_lem_example : test_bit (well_known_flags 0x10024) 16 ≡ false
unfolding test_bit
well_known_flags_lem_example = well_known_flags_lem 0x10024 16 (omega arith)

shown : well_known_flags 0x10024 ≡ 0x24
unfolding well_known_flags
shown = refl

parsed : parse_bits_mask [] (codes "anonymous,mmap") ≡ some ((0x1800, 0xffffffffffffffff) ∷ [])
unfolding parse_bits_mask after_char strncmp_eq
parsed = refl
