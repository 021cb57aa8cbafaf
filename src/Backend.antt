-- ===== src/Backend.antt =====
-- lib/include.h: the memory types of -B, and the walk over the chosen ones.
pub mod Walk
pub mod Tests
use mm_regression.Base.{
  ℕ, zero, suc, ◌+◌, ◌-◌, ◌^◌, List, [], ◌∷◌, true, false, ltb, ◌==◌, bit_and, length,
  if◌then◌else◌,
}

abbrev pub pagecache : ℕ
pagecache = 0

abbrev pub anonymous : ℕ
anonymous = 1

abbrev pub thp : ℕ
thp = 2

abbrev pub hugetlb_anon : ℕ
hugetlb_anon = 3

abbrev pub hugetlb_shmem : ℕ
hugetlb_shmem = 4

abbrev pub hugetlb_file : ℕ
hugetlb_file = 5

abbrev pub ksm : ℕ
ksm = 6

abbrev pub zero_page : ℕ
zero_page = 7

abbrev pub huge_zero : ℕ
huge_zero = 8

abbrev pub normal_shmem : ℕ
normal_shmem = 9

abbrev pub devmem : ℕ
devmem = 10

abbrev pub nr_backend_types : ℕ
nr_backend_types = 11

-- `1UL << type`
abbrev pub be : ℕ → ℕ
be type = 2 ^ type

module _ (bitmap : ℕ) where
  -- The loop of `find_next_backend` at `i`, with `left` types to look at.
  find_loop : (left i : ℕ) → ℕ
  find_loop zero i = i
  find_loop (suc left) i = elim (bit_and bitmap (be i) == 0) [
    | true ↦ find_loop left (i + 1)
    | false ↦ i
  ]

  pub find_next_backend : ℕ → ℕ
  unfolding find_loop
  find_next_backend i = find_loop (nr_backend_types - i) i

  -- The types at which `for_each_backend` runs its body, from the type `i` on. The fuel is the
  -- number of types and one more.
  each_from : (fuel i : ℕ) → List ℕ
  each_from zero i = []
  each_from (suc fuel) i = elim (ltb i nr_backend_types) [
    | true ↦ i ∷ each_from fuel (find_next_backend (i + 1))
    | false ↦ []
  ]

  unfoldable pub for_each_backend : List ℕ
  unfolding each_from find_next_backend
  for_each_backend = each_from (nr_backend_types + 1) (find_next_backend 0)

  -- `j++` in the body of `for_each_backend`
  unfoldable pub get_nr_mem_types : ℕ
  get_nr_mem_types = length for_each_backend
