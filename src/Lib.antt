-- ===== src/Lib.antt =====
-- mm_regression is a suite of regression tests for the memory management of Linux. Its C core is
-- the program lib/test_alloc_generic.c with lib/include.h: it maps memory of the types that -B
-- names in chunks, and runs the operations that -L lists on them, in step with a controlling
-- script. This development models that program with lib/include.h, the libraries
-- test_core/lib/include.h, lib/pfn.h and lib/hugepage.h, and the programs beside it: those with
-- logic of their own, lib/hugetlb_1gb.c, lib/hugetlb_fork_rw.c, lib/test_mincore.c and
-- lib/test_dax.c, and the small ones.
--
-- How the parts interact: `main` reads the options, and `setup` prepares the files and the array
-- of chunks for the chosen memory types (Setup). `parse_operations` splits the text of -L, and
-- `do_operation_loop` parses each operation into an `op_control` (Parse, on Libc), waits for the
-- script if asked to (Wait), and runs the operation that the name says. The operations read their
-- arguments from the `op_control` (Opc). `do_mmap` fills the array of chunks for each chosen
-- memory type (Backend, Chunk); the others walk over the array with `do_work_memory` (PageOps,
-- Madvise) or with loops of their own (Access), or drive those (Control, Stress, Compaction). -L
-- hotremove searches /proc/kpageflags for a block of pages (Memblock) with a filter on page flags
-- (PageFlags). The programs beside it take parts of the libraries alone (PageInfo, Hugepage,
-- TestCore, Wait and the files of Chunk), or none.
--
-- Files:
--   Base, Base/*        numbers, lists, texts and bit operations that the other files share
--   Machine             the globals of the process, its system calls, the ways in which a function
--                       ends; Machine/Post, Machine/Total and Machine/Ends reason on these, and
--                       Machine/Touched on the memory that is mapped when it is touched; Machine/Bare
--                       is the monad of a program without globals
--   Libc                strtok, sscanf, strtoul, strtol, atol, strncmp and strchr as the code uses them
--   Abi, Abi/*          constants of lib/include.h, test_core/lib/include.h and Linux
--   Backend             find_next_backend, for_each_backend, get_nr_mem_types
--   Opc                 struct op_control, opc_defined, opc_get_value, opc_set_value
--   Parse               get_op_index, parse_operation_arg, parse_operation_args, parse_operations
--   Chunk               get_size_of_chunked_mmap_area, alloc_shmem, free_shmem, prepare_memory,
--                       do_mmap, do_work_memory
--   Access              read_memory, write_memory, access_memory, check_memory, do_access
--   PageOps             munmap, mbind, move_pages, mlock, munlock, mlock2, mprotect, mremap,
--                       sync_file_range and process_vm_readv on every chunk
--   Madvise             __do_madvise_chunk, do_madvise, do_madv_soft
--   PageFlags           the flags and the filter of lib/pfn.h
--   Memblock            get_memblk_size, get_memblk_order, get_max_memblock, memblock_check
--   Wait                pprintf, pprintf_wait, pprintf_wait_func, do_wait_before, do_wait_after
--   Control             the operations that set policies, fork or wait
--   Stress              the operations that repeat others: do_mremap_stress, do_iterate_mapping, ...
--   Compaction          do_memory_compaction
--   OperationLoop       do_operation_loop
--   Setup               main and setup of lib/test_alloc_generic.c, create_workdir,
--                       create_regular_file, create_hugetlbfs_file
--   PageInfo            get_pfn, get_pflags, get_pcount, check_kpflags, kick_hard_offline and
--                       kick_soft_offline of lib/pfn.h
--   Hugepage            write_hugepage, read_hugepage, alloc_hugepage, free_hugepage and the functions
--                       of each kind; Hugepage/Mounts has hugetlbfs_root and gethugepagesize
--   TestCore            huge page sizes, semaphores, pipe_read and advice of test_core/lib/include.h
--   Gigantic            lib/hugetlb_1gb.c: its operations; Gigantic/Parse its parser, Gigantic/Main
--                       its waits and main
--   ForkRw              lib/hugetlb_fork_rw.c
--   Mincore             lib/test_mincore.c; Mincore/Locals its options, Mincore/Buffer the text of
--                       show_mincore_map
--   Dax                 lib/test_dax.c; Dax/Inputs its arguments and environment
--   Programs/Regions    lib/misc/truncate_mapped_file.c, lib/misc/reproduce_220127.c
--   Programs/Idle       lib/test_mark_idle_all.c
--   Programs/Moves      lib/test_numa_move_pages.c, lib/test_iterate_numa_move_pages.c
--   Programs/Folio      lib/test_folio_readahead.c
--   Programs/Poison     lib/test_splice.c, lib/test_devdax_simple.c, lib/test_ksm_madv_soft.c,
--                       lib/test_thp_mlock.c, lib/test_fsdax.c, lib/test_zero_pages.c
--   Programs/Shared     lib/test_hugetlb_pmd_share.c, lib/test_hugetlb_private_pagemap.c
--   Programs/Sample     test_core/sample_test/lib/test_sample.c
--   Programs/Ndctl      lib/ndctl_ioctl.c
-- The functions keep the names of the source. A module Tests holds runs at concrete inputs.
--
-- The model: a function of the source is a function from a state, the globals with the list of
-- calls made so far, to a result and a state. The result tells a return from the end of the
-- process (`exit`, also by a signal), from undefined behaviour (`fault`) and from a loop that has not
-- ended (`running`). What the kernel answers, the pages' contents included, is a parameter: any function
-- from the calls made so far and the next call to a number. The programs with globals of their own
-- (Hugepage, Gigantic, ForkRw) use the same monad over a state of their own, and those without any
-- (Dax, Programs) over the list of calls alone; Programs/Ndctl has calls of its own. A 32-bit or 64-bit
-- value is a natural number with its wrap-around written out; an `int` that may be negative is its
-- bit pattern.
--
-- Fuel: the walk over the memory types has the number of types and one more, and the loop over the
-- steps of madvise the pages of the chunk and three; both are proved to be enough. The
-- outer loop of test_dax has as many rounds as REPEATS says. Every loop that the source leaves open,
-- on `flag`, on the arrival of SIGUSR1 or with a test that never fails, takes the number of rounds
-- that are looked at; after them its result is `running`.
--
-- Not modelled: verbose output and the text of error messages; the reading of files of sysfs and
-- procfs, whose lines, names or words are parameters or a call's answer; the signals between the
-- threads of lib/test_early_kill_pthread.c; lib/test_mce-srar.c, lib/test_multiple_mappings_srar.c,
-- lib/test-io_uring.c and lib/ras-tools, which build on copies of other projects; the shell, Ruby
-- and SystemTap scripts, and the cases.
pub mod Base
pub mod Machine
pub mod Libc
pub mod Mincore
pub mod Opc
pub mod Parse
pub mod Wait
pub mod Access
pub mod PageOps
pub mod PageFlags
pub mod Madvise
pub mod Memblock
pub mod Control
pub mod Stress
pub mod Compaction
pub mod OperationLoop
pub mod Abi
pub mod Backend
pub mod Chunk
pub mod Programs
pub mod Setup
pub mod PageInfo
pub mod Dax
pub mod Hugepage
pub mod TestCore
pub mod Gigantic
pub mod ForkRw
