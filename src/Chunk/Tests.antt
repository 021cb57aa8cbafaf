-- ===== src/Chunk/Tests.antt =====
-- Runs of the layout of the chunks.
use mm_regression.Base.{Option, ℕ, zero, suc, ◌*◌, ◌≡◌, refl, inl, some, get_elem?, arith}
use mm_regression.Abi.{ps}
use mm_regression.Machine.{MemChunk, Call, call, ok}
use mm_regression.Base.Int.{ℤ}
use mm_regression.Chunk.Visits.{called, do_work_memory_lem}
use mm_regression.Machine.Post.{Post}
use mm_regression.Machine.Samples.{obliging, unmapped, fresh}
use mm_regression.Chunk.{do_work_memory, nr_chunk_of, do_mmap}
use mm_regression.Chunk.Size.{total_size, total_size_lem}
use mm_regression.Backend.{for_each_backend}
use mm_regression.Machine.Total.{Total}
use mm_regression.Chunk.Mapped.{IsObliging}
use mm_regression.Chunk.Complete.{IsComplete, do_mmap-IsComplete}
use mm_regression.Chunk.Layout.{
  IsLaidOut, IsSlotted, IsDisjoint, do_mmap-IsLaidOut, do_mmap-IsDisjoint,
}

total_size_lem_example : total_size 5000 (nr_chunk_of 5000) (nr_chunk_of 5000) ≡ 5000 * ps
total_size_lem_example = total_size_lem 5000 (omega arith)

unmapped-IsSlotted : (k : ℕ) → IsSlotted k unmapped
unmapped-IsSlotted k = record { address = inl refl; fits = omega arith }

unmapped_at : (k : ℕ) (c : MemChunk) → get_elem? fresh.chunkset k ≡ some c → c ≡ unmapped
unmapped_at zero c h = ground arith
unmapped_at (suc zero) c h = ground arith
unmapped_at (suc (suc zero)) c h = ground arith
unmapped_at (suc (suc (suc zero))) c h = ground arith
unmapped_at (suc (suc (suc (suc k)))) c h = ground arith

fresh-IsLaidOut : IsLaidOut fresh.chunkset
fresh-IsLaidOut = record { at = λ k c h. rw (unmapped_at k c h) (unmapped-IsSlotted k) }

do_mmap-IsLaidOut_example : Post fresh (do_mmap obliging) (λ _ t. IsLaidOut t.chunkset)
do_mmap-IsLaidOut_example = do_mmap-IsLaidOut obliging fresh fresh-IsLaidOut

fresh_blank :
    (k : ℕ) (c : MemChunk) → get_elem? fresh.chunkset k ≡ some c → (c.p ≡ 0) × (c.chunk_size ≡ 0)
fresh_blank k c h = rw (unmapped_at k c h) (refl, refl)

do_mmap-IsDisjoint_example : Post fresh (do_mmap obliging) (λ _ t. IsDisjoint t.chunkset)
do_mmap-IsDisjoint_example = do_mmap-IsDisjoint obliging fresh fresh_blank

pub obliging-IsObliging : IsObliging obliging
obliging-IsObliging = record {
  maps = λ t a size prot flags fd offset h. refl;
  advises = λ t a size advice. refl;
  shares = λ t key size flags. refl;
  attaches = λ t id a h. refl;
  opens = λ t path. refl;
}

do_mmap-IsComplete_example :
    Total fresh (do_mmap obliging) (λ _ t. IsComplete 5000 2 (for_each_backend 6) 0 fresh t)
unfolding for_each_backend
do_mmap-IsComplete_example =
    do_mmap-IsComplete obliging fresh obliging-IsObliging (omega arith) (omega arith)

-- MADV_DONTNEED on a chunk.
abbrev drop : MemChunk → Call
drop c = Call.madvise c.p c.chunk_size 4

do_work_memory_lem_example :
    (r : Option ℤ) × (do_work_memory (λ c. call obliging (drop c)) fresh
      ≡ (ok r, called drop (λ c. call obliging (drop c)) fresh.chunkset fresh))
unfolding call
do_work_memory_lem_example =
    do_work_memory_lem drop (λ c. call obliging (drop c)) (λ c s. refl) fresh refl
