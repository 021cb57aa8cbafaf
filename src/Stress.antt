-- ===== src/Stress.antt =====
-- lib/include.h: the operations that repeat others until the process is killed, or until the
-- controlling script has seen enough. `rounds` bounds the rounds that are looked at.

use mm_regression.Base.{ℕ, zero, suc, [], some, if◌then◌else◌}
use mm_regression.Base.Int.{is_zero}
use mm_regression.Base.Text.{codes}
use mm_regression.Opc.{OpControl}
use mm_regression.Wait.{pprintf, pprintf_wait_func}
use mm_regression.Access.{do_access}
use mm_regression.Chunk.{do_mmap}
use mm_regression.PageOps.{
  do_munmap, do_mlock, do_munlock, do_fsync_file_range, mremap_round, mbind_fuzz_round,
  iterate_mbind_pingpong, move_pages_pingpong,
}
use mm_regression.Madvise.{do_madvise}
use mm_regression.Machine.{
  Call, Kernel, running, M, pure, stop, ◌>>=◌, ◌>>◌, done, puts, call, emit, while_flag,
}
use mm_regression.Control.{set_value}

module _ (kernel : Kernel) where
  module _ (rounds : ℕ) where
    -- `none` is an endless loop that was left by `return`: the child of the fork.
    fork_rounds : (left : ℕ) → OpControl → M (Unit {0})
    fork_rounds zero opc = stop running
    fork_rounds (suc left) opc = do
      pid ← call kernel Call.fork
      if is_zero pid
          then do_access kernel rounds opc
          else (do emit kernel (Call.waitpid pid); fork_rounds left opc)

    pub do_fork_stress : OpControl → M (Unit {0})
    unfolding fork_rounds
    do_fork_stress opc = fork_rounds rounds opc

    unfoldable pub do_mremap_stress : M (Unit {0})
    do_mremap_stress = while_flag rounds (mremap_round kernel)

    -- The bodies of the endless loops.
    pub mapping_round : OpControl → M (Unit {0})
    mapping_round opc = do
      do_mmap kernel
      do_access kernel rounds opc
      _ ← do_munmap kernel opc
      done

    pub mlock_round : OpControl → M (Unit {0})
    mlock_round opc = do
      _ ← do_mlock kernel opc
      do_access kernel rounds opc
      _ ← do_fsync_file_range kernel
      _ ← do_munlock kernel opc
      done

    pub write_fsync_round : OpControl → M (Unit {0})
    write_fsync_round opc = do do_access kernel rounds opc; _ ← do_fsync_file_range kernel; done

    pub fault_dontneed_round : OpControl → M (Unit {0})
    fault_dontneed_round opc = do do_access kernel rounds opc; _ ← do_madvise kernel opc; done

    unfoldable pub do_iterate_mapping : OpControl → M (Unit {0})
    unfolding mapping_round
    do_iterate_mapping opc = while_flag rounds (mapping_round opc)

    unfoldable pub do_iterate_mlock : OpControl → M OpControl
    do_iterate_mlock opc = do
      opc' ← set_value opc "type" "syswrite"
      while_flag rounds (mlock_round opc')
      pure opc'

    unfoldable pub do_iterate_write_fsync : OpControl → M OpControl
    do_iterate_write_fsync opc = do
      opc' ← set_value opc "type" "syswrite"
      while_flag rounds (write_fsync_round opc')
      pure opc'

    unfoldable pub do_iterate_fault_dontneed : OpControl → M OpControl
    do_iterate_fault_dontneed opc = do
      do_mmap kernel
      opc' ← set_value opc "advice" "dontneed"
      while_flag rounds (fault_dontneed_round opc')
      pure opc'

    unfoldable pub do_mbind_fuzz : M (Unit {0})
    do_mbind_fuzz = do
      puts (λ s. record s { new_nodes = 0 })
      pprintf kernel (codes "doing mbind_fuzz\n") []
      while_flag rounds do _ ← mbind_fuzz_round kernel; done

    pub do_mbind_pingpong : M (Unit {0})
    do_mbind_pingpong =
        pprintf_wait_func kernel rounds (some (iterate_mbind_pingpong kernel))
          (codes "entering iterate_mbind_pingpong\n") []

    pub do_move_pages_pingpong : M (Unit {0})
    do_move_pages_pingpong =
        pprintf_wait_func kernel rounds (some (move_pages_pingpong kernel))
          (codes "entering move_pages_pingpong\n") []
