-- ===== src/Abi.antt =====
-- The constants of lib/include.h, lib/hugepage.h and test_core/lib/include.h, and those that they
-- take from the headers of Linux on x86_64.
pub mod Madv
pub mod Mpol
use mm_regression.Base.{ℕ, bit_or}

abbrev pub ps : ℕ
ps = 4096

abbrev pub page_shift : ℕ
page_shift = 12

abbrev pub hps : ℕ
hps = 0x200000

abbrev pub thps : ℕ
thps = 0x200000

-- CHUNKSIZE, in pages
abbrev pub chunk_pages : ℕ
chunk_pages = 0x1000

-- ADDR_INPUT, the initial value of `allocate_base`
abbrev pub addr_input : ℕ
addr_input = 0x700000000000

abbrev pub prot_read : ℕ
prot_read = 1

abbrev pub prot_exec : ℕ
prot_exec = 4

-- PROT_READ|PROT_WRITE, which is also MMAP_PROT
abbrev pub protflag : ℕ
protflag = 3

abbrev pub map_shared : ℕ
map_shared = 1

abbrev pub map_private : ℕ
map_private = 2

abbrev pub map_anonymous : ℕ
map_anonymous = 0x20

abbrev pub map_private_anonymous : ℕ
map_private_anonymous = bit_or map_private map_anonymous

abbrev pub map_hugetlb : ℕ
map_hugetlb = 0x40000

-- IPC_CREAT | SHM_R | SHM_W
abbrev pub shm_flags : ℕ
shm_flags = bit_or 512 (bit_or 256 128)

abbrev pub shm_hugetlb : ℕ
shm_hugetlb = 2048

abbrev pub eexist : ℕ
eexist = 17
