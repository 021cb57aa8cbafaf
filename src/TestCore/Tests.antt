-- ===== src/TestCore/Tests.antt =====
-- Runs on the sizes of huge pages.
use mm_regression.Base.{ap, ◌≡◌, ◌↔◌, ◌⊎◌, refl, arith, List, [], ◌∷◌, some, length}
use mm_regression.Base.Text.{CString, codes}
use mm_regression.Libc.{strncmp_eq, atol}
use mm_regression.Machine.{ok, exit}
use mm_regression.Machine.Samples.{fresh}
use mm_regression.TestCore.{get_hugepage_sizes, validate_hugepage_size}
use mm_regression.TestCore.Sizes.{IsListed, validate_hugepage_size_iff}

-- The directory of a machine with pages of 2 MB and of 1 GB.
abbrev two_sizes : List CString
two_sizes = codes "." ∷ codes ".." ∷ codes "hugepages-2048kB" ∷ codes "hugepages-1048576kB" ∷ []

two_sizes_read : get_hugepage_sizes (some two_sizes) ≡ 0x200000 ∷ 0x40000000 ∷ []
unfolding get_hugepage_sizes strncmp_eq atol
two_sizes_read = refl

validate_hugepage_size_iff_example :
    (((validate_hugepage_size (some two_sizes) 0x200000 fresh).0 ≡ ok tt)
      ↔ IsListed 0x200000 two_sizes)
    × (((validate_hugepage_size (some two_sizes) 0x200000 fresh).0 ≡ ok tt)
        ⊎ ((validate_hugepage_size (some two_sizes) 0x200000 fresh).0 ≡ exit))
validate_hugepage_size_iff_example =
    validate_hugepage_size_iff two_sizes 0x200000 fresh (omega (arith, ap length two_sizes_read))
