-- ===== src/Memblock/Tests.antt =====
-- Runs of the search for a memory block.
use mm_regression.Base.{ℕ, List, [], ◌∷◌, ◌*◌, replicate, ◌==◌, if◌then◌else◌}
use mm_regression.Base.Int.{pos}
use mm_regression.Machine.{Call, Kernel, State}
use mm_regression.Machine.Total.{Total}
use mm_regression.Machine.Samples.{fresh}
use mm_regression.PageFlags.{Filters}
use mm_regression.Memblock.{Pageflags}

abbrev alternating : List ℕ
alternating = 0x1000 ∷ 0 ∷ 0x1000 ∷ 0 ∷ 0x1000 ∷ 0 ∷ 0x1000 ∷ 0 ∷ []

-- Every other page of the block 3 is anonymous, and no other page is.
abbrev words_of : (index count : ℕ) → List ℕ
words_of index count = if index == 24 then alternating else replicate 8 0

abbrev sample : Pageflags
sample = record { words = words_of; junk = λ count. replicate count 0x1000 }

abbrev anonymous : Filters
anonymous = (0x1000, 0xffffffffffffffff) ∷ []

abbrev removing : State
removing = record fresh { filters = anonymous }

-- Reads return as many bytes as asked for, and everything else succeeds with 0.
abbrev reading : Kernel
reading t (Call.pread_kpageflags index count) = pos (count * 8)
reading t c = pos 0
