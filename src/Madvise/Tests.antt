-- ===== src/Madvise/Tests.antt =====
-- Runs of `do_madvise`.
use mm_regression.Base.{arith}
use mm_regression.Machine.{MemChunk}
use mm_regression.Machine.Ends.{Ends}
use mm_regression.Machine.Samples.{obliging, unmapped}
use mm_regression.Madvise.{MadviseArg, step_rounds, advise_steps}
use mm_regression.Madvise.Steps.{advise_steps-Ends}

-- MADV_DONTNEED on two pages of every four.
abbrev stepping : MadviseArg
stepping = record { advice = 4; size = 0; hp_partial = 0; offset = 1; length = 2; step = 4 }

abbrev chunk : MemChunk
chunk = record unmapped { chunk_size = 0x1000000; p = 0x700000000000 }

advise_steps-Ends_example : Ends (advise_steps obliging (step_rounds 0x1000000) 1 stepping chunk)
advise_steps-Ends_example = advise_steps-Ends obliging stepping chunk (omega arith) 1 (omega arith)
