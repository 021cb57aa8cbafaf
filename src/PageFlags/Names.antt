-- ===== src/PageFlags/Names.antt =====
-- lib/pfn.h: the bits of /proc/kpageflags and /proc/pid/pagemap, and the names of the flags.
use mm_regression.Base.{ℕ, ◌-◌, ◌*◌, ◌^◌, List, [], ◌∷◌, bit_or}
use mm_regression.Base.Text.{CString, codes}

abbrev pub error : ℕ
error = 1

abbrev pub active : ℕ
active = 6

abbrev pub slab : ℕ
slab = 7

abbrev pub writeback : ℕ
writeback = 8

abbrev pub reclaim : ℕ
reclaim = 9

abbrev pub compound_head : ℕ
compound_head = 15

abbrev pub compound_tail : ℕ
compound_tail = 16

abbrev pub huge : ℕ
huge = 17

abbrev pub private : ℕ
private = 35

abbrev pub softdirty : ℕ
softdirty = 40

abbrev pub readahead : ℕ
readahead = 48

abbrev pub slob_free : ℕ
slob_free = 49

abbrev pub slub_frozen : ℕ
slub_frozen = 50

abbrev pub slub_debug : ℕ
slub_debug = 51

abbrev pub file : ℕ
file = 61

abbrev pub swap : ℕ
swap = 62

abbrev pub mmap_exclusive : ℕ
mmap_exclusive = 63

-- `BIT(name)`
abbrev pub bit : ℕ → ℕ
bit name = 2 ^ name

abbrev pub bits_compound : ℕ
bits_compound = bit_or (bit compound_head) (bit compound_tail)

abbrev pub all_bits : ℕ
all_bits = 2 ^ 64 - 1

abbrev pub hackers_bits : ℕ
hackers_bits = 0xffff * 2 ^ 32

-- The bits of a pagemap entry: PM_SOFT_DIRTY, PM_MMAP_EXCLUSIVE, PM_FILE, PM_SWAP, PM_PRESENT,
-- and PM_PFRAME_MASK.
abbrev pub pm_soft_dirty : ℕ
pm_soft_dirty = 55

abbrev pub pm_mmap_exclusive : ℕ
pm_mmap_exclusive = 56

abbrev pub pm_file : ℕ
pm_file = 61

abbrev pub pm_present : ℕ
pm_present = 63

abbrev pub pm_pframe_mask : ℕ
pm_pframe_mask = 2 ^ 55 - 1

-- `page_flag_names`, by the index, less the letter and the colon that each name begins with
abbrev pub page_flag_names : List (ℕ × CString)
page_flag_names =
    (0, codes "locked")
    ∷ (1, codes "error")
    ∷ (2, codes "referenced")
    ∷ (3, codes "uptodate")
    ∷ (4, codes "dirty")
    ∷ (5, codes "lru")
    ∷ (6, codes "active")
    ∷ (7, codes "slab")
    ∷ (8, codes "writeback")
    ∷ (9, codes "reclaim")
    ∷ (10, codes "buddy")
    ∷ (11, codes "mmap")
    ∷ (12, codes "anonymous")
    ∷ (13, codes "swapcache")
    ∷ (14, codes "swapbacked")
    ∷ (15, codes "compound_head")
    ∷ (16, codes "compound_tail")
    ∷ (17, codes "huge")
    ∷ (18, codes "unevictable")
    ∷ (19, codes "hwpoison")
    ∷ (20, codes "nopage")
    ∷ (21, codes "ksm")
    ∷ (22, codes "thp")
    ∷ (23, codes "balloon")
    ∷ (24, codes "zero_page")
    ∷ (25, codes "idle_page")
    ∷ (32, codes "reserved")
    ∷ (33, codes "mlocked")
    ∷ (34, codes "mappedtodisk")
    ∷ (35, codes "private")
    ∷ (36, codes "private_2")
    ∷ (37, codes "owner_private")
    ∷ (38, codes "arch")
    ∷ (39, codes "uncached")
    ∷ (40, codes "softdirty")
    ∷ (48, codes "readahead")
    ∷ (49, codes "slob_free")
    ∷ (50, codes "slub_frozen")
    ∷ (51, codes "slub_debug")
    ∷ (61, codes "file")
    ∷ (62, codes "swap")
    ∷ (63, codes "mmap_exclusive")
    ∷ []
