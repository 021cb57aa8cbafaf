-- ===== src/OperationLoop/Names.antt =====
-- The dispatch on the name of an operation takes the names of the table only.
use mm_regression.Base.{ℕ, ◌≡◌, refl, none, true, false}
use Prim.Native.String.{String}
use mm_regression.Base.Text.{CString, codes, str_eq}
use mm_regression.Opc.{OpControl}
use mm_regression.Parse.{get_op_index}
use mm_regression.Parse.Names.{get_op_index-none, is_operation}
use mm_regression.Memblock.{Pageflags}
use mm_regression.Machine.{Kernel, State, exit}
use mm_regression.OperationLoop.{dispatch, dispatch_1, dispatch_2, dispatch_3}

module _ (kernel : Kernel) (rounds : ℕ) (words : Pageflags) where
  -- A name of the table is not the name at hand.
  is_other :
      (name : CString)
      → get_op_index name ≡ none
      → (n : String) → is_operation (codes n) ≡ true
      → str_eq name (codes n) ≡ false
  is_other name h n e = get_op_index-none name (codes n) h e

  dispatch_3-exit :
      (opc : OpControl) (s : State)
      → get_op_index opc.name ≡ none
      → dispatch_3 kernel rounds words opc s ≡ (exit, s)
  unfolding dispatch_3 is_operation
  dispatch_3-exit opc s h =
      rw
        (
          is_other opc.name h "mbind_pingpong" refl,
          is_other opc.name h "move_pages_pingpong" refl,
          is_other opc.name h "mbind_fuzz" refl,
          is_other opc.name h "fork" refl,
          is_other opc.name h "split_thp" refl,
          is_other opc.name h "fork_pmd_split" refl,
          is_other opc.name h "madvise" refl,
          is_other opc.name h "vm86" refl,
          is_other opc.name h "prctl" refl,
          is_other opc.name h "set_mempolicy" refl,
        )
        refl

  dispatch_2-exit :
      (opc : OpControl) (s : State)
      → get_op_index opc.name ≡ none
      → dispatch_2 kernel rounds words opc s ≡ (exit, s)
  unfolding dispatch_2 is_operation
  dispatch_2-exit opc s h =
      rw
        (
          is_other opc.name h "madv_soft" refl,
          is_other opc.name h "iterate_mapping" refl,
          is_other opc.name h "iterate_fault_dontneed" refl,
          is_other opc.name h "iterate_mlock" refl,
          is_other opc.name h "iterate_write_fsync" refl,
          is_other opc.name h "mremap" refl,
          is_other opc.name h "mremap_stress" refl,
          is_other opc.name h "hotremove" refl,
          is_other opc.name h "process_vm_access" refl,
          is_other opc.name h "fork_stress" refl,
        )
        (dispatch_3-exit opc s h)

  dispatch_1-exit :
      (opc : OpControl) (s : State)
      → get_op_index opc.name ≡ none
      → dispatch_1 kernel rounds words opc s ≡ (exit, s)
  unfolding dispatch_1 is_operation
  dispatch_1-exit opc s h =
      rw
        (
          is_other opc.name h "move_pages" refl,
          is_other opc.name h "mlock" refl,
          is_other opc.name h "mlock2" refl,
          is_other opc.name h "memory_error_injection" refl,
          is_other opc.name h "auto_numa" refl,
          is_other opc.name h "mprotect" refl,
          is_other opc.name h "change_cpuset" refl,
          is_other opc.name h "migratepages" refl,
          is_other opc.name h "memory_compaction" refl,
          is_other opc.name h "allocate_more" refl,
        )
        (dispatch_2-exit opc s h)

  -- A name that is not in the table of operations ends the process, before anything is done.
  pub dispatch-exit :
      (opc : OpControl) (s : State)
      → get_op_index opc.name ≡ none
      → dispatch kernel rounds words opc s ≡ (exit, s)
  unfolding dispatch is_operation
  dispatch-exit opc s h =
      rw
        (
          is_other opc.name h "start" refl,
          is_other opc.name h "noop" refl,
          is_other opc.name h "exit" refl,
          is_other opc.name h "open" refl,
          is_other opc.name h "mmap" refl,
          is_other opc.name h "mmap_numa" refl,
          is_other opc.name h "access" refl,
          is_other opc.name h "busyloop" refl,
          is_other opc.name h "munmap" refl,
          is_other opc.name h "mbind" refl,
        )
        (dispatch_1-exit opc s h)
