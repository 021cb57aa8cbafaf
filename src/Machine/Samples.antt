-- ===== src/Machine/Samples.antt =====
-- A process and a kernel for the tests.
use mm_regression.Base.{[], ◌∷◌, some, true}
use mm_regression.Base.Int.{pos}
use mm_regression.Base.Text.{codes}
use mm_regression.Machine.{Call, Kernel, MemChunk, State}

-- A kernel that maps where it is asked to and lets every other call succeed.
abbrev pub obliging : Kernel
obliging trace (Call.mmap addr size prot flags fd offset) = pos addr
obliging trace (Call.shmat id addr) = pos addr
obliging trace (Call.open_rw path) = pos 7
obliging trace c = pos 0

abbrev pub unmapped : MemChunk
unmapped = record { mem_type = 0; chunk_size = 0; p = 0; shmkey = pos 0; offset = 0 }

-- A process with -n 5000 -B anonymous -B thp, before its first operation.
abbrev pub fresh : State
fresh = record {
  backend_bitmap = 6;
  nr_p = 5000;
  nr_chunk = 2;
  nr_mem_types = 2;
  chunkset = unmapped ∷ unmapped ∷ unmapped ∷ unmapped ∷ [];
  nr_nodes = 2;
  fd = pos 5;
  hugetlbfd = pos 6;
  shmkey = 1;
  new_nodes = 0;
  workdir = codes "work";
  filters = [];
  memblk_size = 0;
  memblk_order = 0;
  filebase = some (codes "testfile");
  testpipe = true;
  trace = [];
}
