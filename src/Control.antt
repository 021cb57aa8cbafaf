-- ===== src/Control.antt =====
-- lib/include.h: the operations that set policies, fork, or wait for the controlling script.
-- `rounds` bounds the rounds of each loop that are looked at.
pub mod Hotremove
pub mod Tests
use Prim.Native.String.{String}
use mm_regression.Base.{
  ℕ, zero, suc, ◌+◌, ◌-◌, ◌*◌, ◌/◌, ◌%◌, ◌^◌, List, [], ◌∷◌, Option, none, some, true, false, ltb,
  ◌==◌, not, ◌||◌, if◌then◌else◌,
}
use mm_regression.Base.Int.{ℤ, negsuc, is_minus_one, is_zero}
use mm_regression.Base.Text.{CString, codes, str_eq}
use mm_regression.Libc.{strtol, strtoul}
use mm_regression.Abi
use mm_regression.Abi.{ps, thps, protflag, prot_read, map_private_anonymous, addr_input}
use mm_regression.Opc.{OpControl, opc_defined, opc_get_value, opc_set_value}
use mm_regression.Wait.{pprintf, pprintf_wait_func}
use mm_regression.Access.{do_access}
use mm_regression.Chunk.{checked_mmap, do_mmap}
use mm_regression.PageOps.{
  do_munmap, do_mlock, do_munlock, do_fsync_file_range, mremap_round, mbind_fuzz_round,
  iterate_mbind_pingpong, move_pages_pingpong, split_thp_chunks, process_vm_access_chunks,
}
use mm_regression.Madvise.{do_madvise}
use mm_regression.PageFlags.{parse_bits_mask}
use mm_regression.Memblock.{Pageflags, memblock_check}
use mm_regression.Machine.{
  Call, Kernel, exit, fault, running, M, pure, stop, ◌>>=◌, ◌>>◌, done, gets, puts, call, emit,
  present, chunk_at, times, while_flag, sext, as_word,
}

abbrev busyloop : CString
busyloop = codes "busyloop"

-- An `opc_set_value` with two literals; `present` faults on an overrun.
pub set_value : OpControl → (key value : String) → M OpControl
set_value opc key value = present (opc_set_value opc (codes key) (codes value))

module _ (kernel : Kernel) where
  pub do_open : OpControl → M (Unit {0})
  do_open opc = elim (opc_get_value opc (codes "path")) [
    -- `access` and `open` of a null pointer fail
    | none ↦ stop exit
    | some path ↦ (do
      found ← call kernel (Call.access path)
      new ← call kernel (if is_minus_one found then Call.create_rw path else Call.open_rw path)
      if is_minus_one new then stop exit else puts (λ s. record s { fd = new }))
  ]

  -- The result is that of a function with no `return`. `set_node` writes into 256 bits.
  pub set_mempolicy_node : (mode nid : ℕ) → M ℤ
  set_mempolicy_node mode nid =
      if ltb nid 256
      then (do
        emit kernel (Call.set_mempolicy mode (if mode == Abi.Mpol.default then 0 else 2 ^ nid))
        call kernel Call.no_return)
      else stop fault

  checked_mempolicy : (mode nid : ℕ) → M (Unit {0})
  unfolding set_mempolicy_node
  checked_mempolicy mode nid = do
    r ← set_mempolicy_node mode nid
    if is_minus_one r then stop exit else done

  pub numa_sched_setaffinity_node : ℕ → M (Unit {0})
  numa_sched_setaffinity_node nid = do
    cpus ← call kernel (Call.numa_node_to_cpus nid)
    if not (is_zero cpus) then stop exit else (do
      r ← call kernel (Call.sched_setaffinity_node nid)
      if not (is_zero r) then stop exit else done)

  -- An `int` argument read with `strtol`, or its default.
  node_arg : OpControl → String → ℕ → ℕ
  node_arg opc key default = elim (opc_get_value opc (codes key)) [
    | none ↦ default
    | some text ↦ strtol text % 2 ^ 32
  ]

  pub do_mmap_numa : OpControl → M (Unit {0})
  unfolding checked_mempolicy node_arg
  do_mmap_numa opc = do
    let cpu_node = node_arg opc "preferred_cpu_node" (2 ^ 32 - 1)
    let mem_node = node_arg opc "preferred_mem_node" 0
    if cpu_node == 2 ^ 32 - 1 then done else numa_sched_setaffinity_node cpu_node
    checked_mempolicy Abi.Mpol.bind mem_node
    do_mmap kernel
    checked_mempolicy Abi.Mpol.default 0

  -- A missing mode is a null pointer for `strcmp`, a missing node an indeterminate number.
  pub do_set_mempolicy : OpControl → M (Unit {0})
  unfolding checked_mempolicy
  do_set_mempolicy opc = do
    mode ← present (opc_get_value opc (codes "mode"))
    if str_eq mode (codes "default")
        then checked_mempolicy Abi.Mpol.default 0
        else if str_eq mode (codes "bind")
        then (do
          node ← present (opc_get_value opc (codes "node"))
          checked_mempolicy Abi.Mpol.bind (strtoul node % 2 ^ 32))
        else stop exit

  -- PR_MCE_KILL_EARLY is 1 and PR_MCE_KILL_LATE 0.
  pub do_prctl : OpControl → M (Unit {0})
  do_prctl opc =
      emit kernel (Call.prctl_mce_kill (if opc_defined opc (codes "early_kill") then 1 else 0))

  -- The mapping lies behind the region of -n.
  pub do_allocate_more : M (Unit {0})
  do_allocate_more = do
    nr_p ← gets (λ s. s.nr_p)
    let size = sext (nr_p * ps)
    panon ←
        checked_mmap kernel ((addr_input + size) % 2 ^ 64) size protflag map_private_anonymous
          (negsuc 0) 0
    pprintf kernel (codes "anonymous address starts at %p\n") (panon ∷ [])
    emit kernel (Call.memset panon size)

  module _ (rounds : ℕ) where
    -- `do_access` in a busy loop if the argument asks for it
    busy_access : OpControl → Option (M (Unit {0}))
    busy_access opc = if opc_defined opc busyloop then some (do_access kernel rounds opc) else none

    wait_busy : OpControl → String → List ℕ → M (Unit {0})
    unfolding busy_access
    wait_busy opc format args =
        pprintf_wait_func kernel rounds (busy_access opc) (codes format) args

    pub do_busyloop : OpControl → M (Unit {0})
    do_busyloop opc =
        pprintf_wait_func kernel rounds (some (do_access kernel rounds opc))
          (codes "entering busy loop\n") []

    pub do_migratepages : OpControl → M (Unit {0})
    unfolding wait_busy
    do_migratepages opc = wait_busy opc "waiting for migratepages\n" []

    pub do_change_cpuset : OpControl → M (Unit {0})
    unfolding wait_busy
    do_change_cpuset opc = wait_busy opc "waiting for change_cpuset\n" []

    pub do_auto_numa : OpControl → M (Unit {0})
    unfolding wait_busy
    do_auto_numa opc = do numa_sched_setaffinity_node 1; wait_busy opc "waiting for auto_numa\n" []

    -- `words` tells the content of /proc/kpageflags.
    pub do_hotremove : (words : Pageflags) → OpControl → M (Unit {0})
    unfolding wait_busy checked_mempolicy
    do_hotremove words opc = elim (opc_get_value opc (codes "pageflags")) [
      | none ↦ stop exit
      | some pageflags ↦ (do
        old ← gets (λ s. s.filters)
        elim (parse_bits_mask old pageflags) [
          | none ↦ stop exit
          | some filters ↦ puts (λ s. record s { filters = filters })
        ]
        checked_mempolicy Abi.Mpol.preferred 1
        pmemblk ← memblock_check kernel words
        emit kernel (Call.usleep 100)
        wait_busy opc "waiting for memory_hotremove: %d\n" (pmemblk ∷ []))
    ]

    -- The number that `error_offset` names is read and dropped: `offset` stays 0.
    inject : (advice : ℕ) → M (Unit {0})
    inject advice = do
      mc ← chunk_at 0
      let offset : ℕ = 0
      emit kernel (Call.madvise (mc.p + offset * ps) ps advice)
      pprintf_wait_func kernel rounds none (codes "after madvise injection\n") []

    inject_as : CString → M (Unit {0})
    unfolding inject
    inject_as error_type =
        if str_eq error_type (codes "mce-srao")
          || (str_eq error_type (codes "hard-offline") || str_eq error_type (codes "soft-offline"))
        then pprintf_wait_func kernel rounds none (codes "waiting for injection from outside\n") []
        else if str_eq error_type (codes "madv_hard")
        then inject Abi.Madv.hwpoison
        else if str_eq error_type (codes "madv_soft")
        then inject Abi.Madv.soft_offline
        else stop exit

    pub do_memory_error_injection : OpControl → M (Unit {0})
    unfolding inject_as
    do_memory_error_injection opc = elim (opc_get_value opc (codes "error_type")) [
      | none ↦ stop exit
      | some error_type ↦ (do
        inject_as error_type
        if opc_defined opc (codes "access_after_injection")
            then (do
              pprintf_wait_func kernel rounds none (codes "writing affected region\n") []
              do_access kernel rounds opc)
            else done)
    ]

    -- What the child of a fork becomes: a reader that waits after its operation, with no pipe.
    become_reader : OpControl → M OpControl
    become_reader opc = do
      opc' ← set_value (record opc { name = codes "access"; wait_after = true }) "type" "read"
      puts (λ s. record s { testpipe = false })
      do_access kernel rounds opc'
      pure opc'

    -- The operation as it is afterwards, and the result of `fork`.
    pub do_fork : OpControl → M (OpControl × ℤ)
    unfolding become_reader
    do_fork opc = do
      pid ← call kernel Call.fork
      if is_zero pid then (do opc' ← become_reader opc; pure (opc', pid)) else pure (opc, pid)

    pub do_fork_pmd_split : OpControl → M OpControl
    unfolding become_reader
    do_fork_pmd_split opc = do
      pid ← call kernel Call.fork
      if is_zero pid
          then (do
            opc' ← become_reader opc
            _ ← split_thp_chunks kernel
            do_access kernel rounds opc'
            pure opc')
          else pure opc

    pub do_process_vm_access : OpControl → M OpControl
    unfolding do_fork wait_busy
    do_process_vm_access opc = do
      (opc', pid) ← do_fork opc
      wait_busy opc' "waiting for process_vm_access\n" []
      _ ← process_vm_access_chunks kernel pid
      pure opc'

    -- The branches behind `else if (1)` are dead.
    pub do_split_thp : OpControl → M (Unit {0})
    do_split_thp opc =
        if opc_defined opc (codes "only_pmd")
        then (do _ ← split_thp_chunks kernel; done)
        else emit kernel
            (Call.system (codes "echo %d,0x%lx,0x%lx > /sys/kernel/debug/split_huge_pages"))
