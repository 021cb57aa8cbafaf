-- ===== src/OperationLoop.antt =====
-- lib/include.h: the loop over the operations of -L.
pub mod Names
pub mod Tests
use mm_regression.Base.{ℕ, List, [], ◌∷◌, Option, none, some, Bool, true, false, if◌then◌else◌}
use mm_regression.Base.Int.{ℤ}
use mm_regression.Base.Text.{CString, codes, str_eq}
use mm_regression.Opc.{OpControl}
use mm_regression.Parse.{Parsed, parse_operation_args}
use mm_regression.Wait.{do_wait_before, do_wait_after}
use mm_regression.Access.{do_access}
use mm_regression.Chunk.{do_mmap}
use mm_regression.PageOps.{
  do_munmap, do_mbind, do_move_pages, do_mlock, do_mlock2, do_mprotect, do_mremap,
}
use mm_regression.Madvise.{do_madvise, do_madv_soft}
use mm_regression.Control.{
  do_open, do_mmap_numa, do_busyloop, do_auto_numa, do_change_cpuset, do_migratepages,
  do_memory_error_injection, do_allocate_more, do_hotremove, do_split_thp, do_prctl,
  do_set_mempolicy, do_process_vm_access, do_fork_pmd_split, do_fork,
}
use mm_regression.Stress.{
  do_iterate_mapping, do_mremap_stress, do_fork_stress, do_mbind_pingpong, do_move_pages_pingpong,
  do_mbind_fuzz, do_iterate_fault_dontneed, do_iterate_mlock, do_iterate_write_fsync,
}
use mm_regression.Compaction.{do_memory_compaction}
use mm_regression.Memblock.{Pageflags}
use mm_regression.Machine.{Kernel, State, exit, fault, M, pure, stop, ◌>>=◌, ◌>>◌, done}

-- An operation that leaves its `op_control` alone; one whose result is not read; and a fork.
plain : OpControl → M (Unit {0}) → M OpControl
plain opc m = do m; pure opc

worked : OpControl → M (Option ℤ) → M OpControl
worked opc m = do _ ← m; pure opc

forked : M (OpControl × ℤ) → M OpControl
forked m = do (opc, pid) ← m; pure opc

module _ (kernel : Kernel) (rounds : ℕ) (words : Pageflags) where
  -- The chain of `strcmp` tests on the name, continued.
  dispatch_3 : OpControl → M OpControl
  unfolding plain worked forked
  dispatch_3 opc =
      if str_eq opc.name (codes "mbind_pingpong")
      then plain opc (do_mbind_pingpong kernel rounds)
      else if str_eq opc.name (codes "move_pages_pingpong")
      then plain opc (do_move_pages_pingpong kernel rounds)
      else if str_eq opc.name (codes "mbind_fuzz")
      then plain opc (do_mbind_fuzz kernel rounds)
      else if str_eq opc.name (codes "fork")
      then forked (do_fork kernel rounds opc)
      else if str_eq opc.name (codes "split_thp")
      then plain opc (do_split_thp kernel rounds opc)
      else if str_eq opc.name (codes "fork_pmd_split")
      then do_fork_pmd_split kernel rounds opc
      else if str_eq opc.name (codes "madvise")
      then worked opc (do_madvise kernel opc)
      else if str_eq opc.name (codes "vm86")
      then pure opc
      else if str_eq opc.name (codes "prctl")
      then plain opc (do_prctl kernel opc)
      else if str_eq opc.name (codes "set_mempolicy")
      then plain opc (do_set_mempolicy kernel opc)
      else stop exit

  -- The chain of `strcmp` tests on the name, continued.
  dispatch_2 : OpControl → M OpControl
  unfolding plain worked forked dispatch_3
  dispatch_2 opc =
      if str_eq opc.name (codes "madv_soft")
      then do_madv_soft kernel opc
      else if str_eq opc.name (codes "iterate_mapping")
      then plain opc (do_iterate_mapping kernel rounds opc)
      else if str_eq opc.name (codes "iterate_fault_dontneed")
      then do_iterate_fault_dontneed kernel rounds opc
      else if str_eq opc.name (codes "iterate_mlock")
      then do_iterate_mlock kernel rounds opc
      else if str_eq opc.name (codes "iterate_write_fsync")
      then do_iterate_write_fsync kernel rounds opc
      else if str_eq opc.name (codes "mremap")
      then worked opc (do_mremap kernel)
      else if str_eq opc.name (codes "mremap_stress")
      then plain opc (do_mremap_stress kernel rounds)
      else if str_eq opc.name (codes "hotremove")
      then plain opc (do_hotremove kernel rounds words opc)
      else if str_eq opc.name (codes "process_vm_access")
      then do_process_vm_access kernel rounds opc
      else if str_eq opc.name (codes "fork_stress")
      then plain opc (do_fork_stress kernel rounds opc)
      else dispatch_3 opc

  -- The chain of `strcmp` tests on the name, continued.
  dispatch_1 : OpControl → M OpControl
  unfolding plain worked forked dispatch_2
  dispatch_1 opc =
      if str_eq opc.name (codes "move_pages")
      then worked opc (do_move_pages kernel)
      else if str_eq opc.name (codes "mlock")
      then worked opc (do_mlock kernel opc)
      else if str_eq opc.name (codes "mlock2")
      then worked opc (do_mlock2 kernel opc)
      else if str_eq opc.name (codes "memory_error_injection")
      then plain opc (do_memory_error_injection kernel rounds opc)
      else if str_eq opc.name (codes "auto_numa")
      then plain opc (do_auto_numa kernel rounds opc)
      else if str_eq opc.name (codes "mprotect")
      then worked opc (do_mprotect kernel opc)
      else if str_eq opc.name (codes "change_cpuset")
      then plain opc (do_change_cpuset kernel rounds opc)
      else if str_eq opc.name (codes "migratepages")
      then plain opc (do_migratepages kernel rounds opc)
      else if str_eq opc.name (codes "memory_compaction")
      then plain opc (do_memory_compaction kernel rounds)
      else if str_eq opc.name (codes "allocate_more")
      then plain opc (do_allocate_more kernel)
      else dispatch_2 opc

  -- The chain of `strcmp` tests on the name.
  pub dispatch : OpControl → M OpControl
  unfolding plain worked forked dispatch_1
  dispatch opc =
      if str_eq opc.name (codes "start")
      then pure opc
      else if str_eq opc.name (codes "noop")
      then pure opc
      else if str_eq opc.name (codes "exit")
      then pure opc
      else if str_eq opc.name (codes "open")
      then plain opc (do_open kernel opc)
      else if str_eq opc.name (codes "mmap")
      then plain opc (do_mmap kernel)
      else if str_eq opc.name (codes "mmap_numa")
      then plain opc (do_mmap_numa kernel opc)
      else if str_eq opc.name (codes "access")
      then plain opc (do_access kernel rounds opc)
      else if str_eq opc.name (codes "busyloop")
      then plain opc (do_busyloop kernel rounds opc)
      else if str_eq opc.name (codes "munmap")
      then worked opc (do_munmap kernel opc)
      else if str_eq opc.name (codes "mbind")
      then worked opc (do_mbind kernel opc)
      else dispatch_1 opc

  parsed : Parsed OpControl → M OpControl
  parsed (Parsed.ok opc) = pure opc
  parsed Parsed.unsupported = stop exit
  parsed Parsed.overrun = stop fault

  -- The body of the loop, for one of the `op_strings`.
  pub run_operation : CString → M (Unit {0})
  unfolding parsed
  run_operation text = do
    opc ← parsed (parse_operation_args text)
    if opc.wait_before then do_wait_before kernel rounds opc else done
    opc' ← dispatch opc
    if opc'.wait_after then do_wait_after kernel rounds opc' else done

  pub do_operation_loop : (op_strings : List CString) → M (Unit {0})
  do_operation_loop [] = done
  do_operation_loop (text ∷ op_strings) = do run_operation text; do_operation_loop op_strings
