-- ===== src/PageFlags.antt =====
-- lib/pfn.h: which page flags a page shows, and the filter on them that -L hotremove names.
pub mod Frame
pub mod Names
pub mod Bits
pub mod Filter
pub mod Tests
use mm_regression.Base.{
  ℕ, zero, suc, ◌+◌, ◌-◌, ◌*◌, ◌%◌, ◌^◌, List, [], ◌∷◌, Option, none, some, Bool, true, false, ltb,
  leb, ◌==◌, not, ◌&&◌, ◌||◌, bit_and, bit_or, bit_xor, length, if◌then◌else◌,
}
use mm_regression.Base.Text.{CString, codes}
use mm_regression.Libc.{strtol, strncmp_eq, after_char}
use Names
use Names.{bit, bits_compound, all_bits, hackers_bits, page_flag_names}
use mathlib.Core.Option

-- `flags & mask` as a test
abbrev pub has : ℕ → ℕ → Bool
has flags mask = not (bit_and flags mask == 0)

-- SLOB and SLUB overload several page flags.
expand_slab : ℕ → ℕ
expand_slab flags =
    if has flags (bit Names.slab)
    then (let f1 =
          if has flags (bit Names.private)
          then bit_xor flags (bit_or (bit Names.private) (bit Names.slob_free))
          else flags in
        let f2 =
          if has f1 (bit Names.active)
          then bit_xor f1 (bit_or (bit Names.active) (bit Names.slub_frozen))
          else f1 in
        if has f2 (bit Names.error)
        then bit_xor f2 (bit_or (bit Names.error) (bit Names.slub_debug))
        else f2)
    else flags

-- PG_reclaim is overloaded as PG_readahead in the read path.
expand_reclaim : ℕ → ℕ
expand_reclaim flags =
    if bit_and flags (bit_or (bit Names.reclaim) (bit Names.writeback)) == bit Names.reclaim
    then bit_xor flags (bit_or (bit Names.reclaim) (bit Names.readahead))
    else flags

-- One bit of the pagemap entry that becomes a flag.
add_pme_bit : (pme pm_bit flag flags : ℕ) → ℕ
add_pme_bit pme pm_bit flag flags = if has pme (bit pm_bit) then bit_or flags (bit flag) else flags

pub expand_overloaded_flags : (flags pme : ℕ) → ℕ
unfolding expand_slab expand_reclaim add_pme_bit
expand_overloaded_flags flags pme = add_pme_bit pme Names.pm_mmap_exclusive Names.mmap_exclusive (
    add_pme_bit pme Names.pm_file Names.file
      (add_pme_bit pme Names.pm_soft_dirty Names.softdirty (expand_reclaim (expand_slab flags))))

-- `~mask` of a 64-bit word
abbrev pub not64 : ℕ → ℕ
not64 mask = all_bits - mask

pub well_known_flags : ℕ → ℕ
well_known_flags flags =
    let f = bit_and flags (not64 hackers_bits) in
    if has f bits_compound && not (has f (bit Names.huge))
    then bit_and f (not64 bits_compound)
    else f

pub kpageflags_flags : (opt_raw : Bool) → (flags pme : ℕ) → ℕ
unfolding expand_overloaded_flags well_known_flags
kpageflags_flags opt_raw flags pme =
    if opt_raw then expand_overloaded_flags flags pme else well_known_flags flags

unfoldable pub pagemap_pfn : ℕ → ℕ
pagemap_pfn val = if has val (bit Names.pm_present) then bit_and val Names.pm_pframe_mask else 0

-- `opt_mask[i]` and `opt_bits[i]` for the filters added so far
abbrev pub Filters : Type 0
Filters = List (ℕ × ℕ)

pub bit_mask_ok : Filters → ℕ → Bool
bit_mask_ok [] flags = true
bit_mask_ok ((mask, bits) ∷ filters) flags =
    let rest = bit_mask_ok filters flags in
    if bits == all_bits
    then (if bit_and flags mask == 0 then false else rest)
    else if bit_and flags mask == bits
    then rest
    else false

-- MAX_BIT_FILTERS is 1. `none` is `fatal`, here and below.
pub add_bits_filter : Filters → (mask bits : ℕ) → Option Filters
add_bits_filter [] mask bits = some ((mask, bits) ∷ [])
add_bits_filter (f ∷ filters) mask bits = none

-- A text that is no number is fatal.
parse_number : CString → Option ℕ
parse_number [] = none
parse_number (c ∷ s) = let n = strtol (c ∷ s) in if n == 0 && not (c == b'0') then none else some n

find_flag : (len : ℕ) → CString → List (ℕ × CString) → Option ℕ
find_flag len str [] = none
find_flag len str ((i, name) ∷ names) =
    let rest = find_flag len str names in if strncmp_eq len str name then some i else rest

pub parse_flag_name : (str : CString) → (len : ℕ) → Option ℕ
unfolding parse_number find_flag
parse_flag_name str zero = some 0
parse_flag_name [] (suc len) = some 0
parse_flag_name (c ∷ str) (suc len) =
    if leb (suc len) 8 && strncmp_eq (suc len) (c ∷ str) (codes "compound")
    then some bits_compound
    else elim (find_flag (suc len) (c ∷ str) page_flag_names) [
      | some i ↦ some (2 ^ i)
      | none ↦ parse_number (c ∷ str)
    ]

-- One name of `len` bytes; one that begins with `~` counts only with `all`.
parse_segment : (all : Bool) → (str : CString) → (len : ℕ) → Option ℕ
unfolding parse_flag_name
parse_segment all [] len = parse_flag_name [] len
parse_segment all (c ∷ str) len =
    if not (c == b'~')
    then parse_flag_name (c ∷ str) len
    else if all && not (length str == 0)
    then parse_flag_name str (len - 1)
    else some 0

or_some : Option ℕ → Option ℕ → Option ℕ
or_some none g = none
or_some (some f) none = none
or_some (some f) (some g) = some (bit_or f g)

-- The loop of `parse_flag_names`: `str` is where the name begins, `len` bytes before `p`.
names_loop :
    (all : Bool) → (str : CString) → (len : ℕ) → (flags : Option ℕ) → (p : CString) → Option ℕ
unfolding parse_segment or_some
names_loop all str len flags [] = or_some flags (parse_segment all str len)
names_loop all str len flags (c ∷ p) =
    let comma = c == b',' in
    let found = or_some flags (parse_segment all str len) in
    let rest =
      names_loop all (if comma then p else str) (if comma then 0 else len + 1)
        (if comma then found else flags) p in
    if c == b'=' then found else rest

pub parse_flag_names : CString → (all : Bool) → Option ℕ
unfolding names_loop
parse_flag_names str all = names_loop all str 0 (some 0) str

is_first : ℕ → CString → Bool
is_first d [] = false
is_first d (c ∷ s) = c == d

infixl 5 ◌>>=◌
abbrev ◌>>=◌ : {A B : Type 0} → Option A → (A → Option B) → Option B
none >>= f = none
some a >>= f = f a

pub parse_bits_mask : Filters → CString → Option Filters
unfolding is_first parse_flag_names add_bits_filter
parse_bits_mask filters optarg = elim (after_char b'=' optarg) [
  | some after ↦
      if is_first b'=' optarg
      then (do bits ← parse_flag_names after false; add_bits_filter filters all_bits bits)
      else (do
        mask ← parse_flag_names optarg false
        bits ← parse_flag_names after false
        add_bits_filter filters mask bits)
  | none ↦ elim (after_char b'~' optarg) [
    | some _ ↦ (do
      mask ← parse_flag_names optarg true
      bits ← parse_flag_names optarg false
      add_bits_filter filters mask bits)
    | none ↦ (do mask ← parse_flag_names optarg false; add_bits_filter filters mask all_bits)
  ]
]
