-- ===== src/Parse/Table.antt =====
-- lib/include.h: the names of the operations and the arguments that each takes, in the order of
-- the NR_ constants.
use mm_regression.Base.{List, [], ◌∷◌}
use mm_regression.Base.Text.{CString, codes}

abbrev pub operation_name : List CString
operation_name =
    codes "start"
    ∷ codes "noop"
    ∷ codes "exit"
    ∷ codes "open"
    ∷ codes "mmap"
    ∷ codes "mmap_numa"
    ∷ codes "access"
    ∷ codes "busyloop"
    ∷ codes "munmap"
    ∷ codes "mbind"
    ∷ codes "move_pages"
    ∷ codes "mlock"
    ∷ codes "mlock2"
    ∷ codes "memory_error_injection"
    ∷ codes "auto_numa"
    ∷ codes "mprotect"
    ∷ codes "change_cpuset"
    ∷ codes "migratepages"
    ∷ codes "memory_compaction"
    ∷ codes "allocate_more"
    ∷ codes "madv_soft"
    ∷ codes "iterate_mapping"
    ∷ codes "iterate_fault_dontneed"
    ∷ codes "iterate_mlock"
    ∷ codes "iterate_write_fsync"
    ∷ codes "mremap"
    ∷ codes "mremap_stress"
    ∷ codes "hotremove"
    ∷ codes "process_vm_access"
    ∷ codes "fork_stress"
    ∷ codes "mbind_pingpong"
    ∷ codes "move_pages_pingpong"
    ∷ codes "mbind_fuzz"
    ∷ codes "fork"
    ∷ codes "split_thp"
    ∷ codes "fork_pmd_split"
    ∷ codes "madvise"
    ∷ codes "vm86"
    ∷ codes "prctl"
    ∷ codes "set_mempolicy"
    ∷ []

abbrev pub op_supported_args : List (List CString)
op_supported_args =
    []
    ∷ []
    ∷ []
    ∷ (codes "path" ∷ [])
    ∷ []
    ∷ (codes "preferred_cpu_node" ∷ codes "preferred_mem_node" ∷ [])
    ∷ (codes "type" ∷ codes "check" ∷ codes "reverse" ∷ [])
    ∷ (codes "type" ∷ [])
    ∷ (codes "hp_partial" ∷ [])
    ∷ (codes "hp_partial" ∷ codes "flags" ∷ [])
    ∷ []
    ∷ (codes "hp_partial" ∷ [])
    ∷ (codes "hp_partial" ∷ [])
    ∷ (codes "error_type" ∷ codes "access_after_injection" ∷ codes "error_offset" ∷ [])
    ∷ (codes "busyloop" ∷ [])
    ∷ (codes "hp_partial" ∷ codes "permission" ∷ [])
    ∷ (codes "busyloop" ∷ [])
    ∷ (codes "busyloop" ∷ [])
    ∷ []
    ∷ []
    ∷ []
    ∷ []
    ∷ []
    ∷ []
    ∷ []
    ∷ []
    ∷ []
    ∷ (codes "busyloop" ∷ codes "pageflags" ∷ [])
    ∷ (codes "busyloop" ∷ [])
    ∷ []
    ∷ []
    ∷ []
    ∷ []
    ∷ []
    ∷ (codes "only_pmd" ∷ [])
    ∷ []
    ∷ (codes "advice"
        ∷ codes "size"
        ∷ codes "hp_partial"
        ∷ codes "offset"
        ∷ codes "length"
        ∷ codes "step"
        ∷ [])
    ∷ []
    ∷ (codes "early_kill" ∷ codes "late_kill" ∷ [])
    ∷ (codes "mode" ∷ codes "node" ∷ [])
    ∷ []
