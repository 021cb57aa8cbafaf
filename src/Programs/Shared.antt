-- ===== src/Programs/Shared.antt =====
-- lib/test_hugetlb_pmd_share.c and lib/test_hugetlb_private_pagemap.c: a mapped file of huge pages
-- that waits for the controlling script. `argv` is taken from `argv[1]` on.
use mm_regression.Base.{ℕ, ◌+◌, ◌*◌, ◌^◌, List, [], ◌∷◌, some, bit_or, if◌then◌else◌}
use mm_regression.Base.Int.{is_minus_one}
use mm_regression.Base.Text.{CString, codes, str_eq}
use mm_regression.Abi
use mm_regression.Abi.{ps, hps, addr_input, protflag, map_shared, map_private}
use mm_regression.Chunk.{checked_mmap}
use mm_regression.Control.{set_mempolicy_node}
use mm_regression.Setup.{create_hugetlbfs_file}
use mm_regression.Machine.{
  Call, Kernel, M, exit, stop, ◌>>=◌, ◌>>◌, done, gets, puts, call, emit, as_word,
}

module _ (kernel : Kernel) where
  set_policy : (mode nid : ℕ) → M (Unit {0})
  set_policy mode nid = do
    r ← set_mempolicy_node kernel mode nid
    if is_minus_one r then stop exit else done

  -- There and back, in the ways that `argv[1]` names. A mask of nodes is a number.
  move_there_and_back : (mode : CString) → (addr : ℕ) → M (Unit {0})
  move_there_and_back mode addr =
      let strictly = bit_or Abi.Mpol.mf_move_all Abi.Mpol.mf_strict in
      if str_eq mode (codes "mbind")
      then (do
        emit kernel (Call.mbind addr (2 * hps) Abi.Mpol.bind (2 ^ 1) strictly)
        emit kernel (Call.mbind addr (2 * hps) Abi.Mpol.bind (2 ^ 0) strictly))
      else if str_eq mode (codes "move_pages")
      then (do
        emit kernel (Call.move_pages (addr ∷ []) 1 Abi.Mpol.mf_move_all)
        emit kernel (Call.move_pages (addr ∷ []) 0 Abi.Mpol.mf_move_all))
      else if str_eq mode (codes "madv_soft")
      then emit kernel (Call.madvise addr ps Abi.Madv.soft_offline)
      else done

  on_signal : (argv : List CString) → (addr : ℕ) → M (Unit {0})
  unfolding move_there_and_back
  on_signal [] addr = done
  on_signal (mode ∷ argv) addr = do
    node ← call kernel Call.numa_max_node
    puts (λ s. record s { nr_nodes = as_word node + 1 })
    emit kernel Call.signal_sigusr1
    emit kernel Call.pause
    move_there_and_back mode addr

  -- `main` of test_hugetlb_pmd_share.c
  pub pmd_share_main : (argv : List CString) → M (Unit {0})
  unfolding set_policy on_signal
  pmd_share_main argv = do
    create_hugetlbfs_file kernel
    set_policy Abi.Mpol.bind 0
    fd ← gets (λ s. s.hugetlbfd)
    phugetlb ← checked_mmap kernel addr_input (2 ^ 30) protflag map_shared fd 0
    emit kernel (Call.memset phugetlb (2 * hps))
    set_policy Abi.Mpol.default 0
    on_signal argv phugetlb
    emit kernel Call.pause

  -- `main` of test_hugetlb_private_pagemap.c
  pub private_pagemap_main : M (Unit {0})
  private_pagemap_main = do
    puts (λ s. record s { workdir = codes "/dev/hugepages"; filebase = some (codes "testfile") })
    create_hugetlbfs_file kernel
    fd ← gets (λ s. s.hugetlbfd)
    phugetlb ← checked_mmap kernel addr_input (2 * hps) protflag map_private fd 0
    emit kernel (Call.memset phugetlb (2 * hps))
    emit kernel Call.pause
