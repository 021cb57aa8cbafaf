-- ===== src/Chunk/Size.antt =====
-- The sizes of the chunks of one memory type.
use mm_regression.Base.{ℕ, zero, suc, ◌+◌, ◌-◌, ◌*◌, ◌/◌, ◌%◌, ◌<◌, ◌≡◌, refl, arith}
use native.Mathlib.Nat.{mod-eq_of_lt}
use mm_regression.Abi.{ps, chunk_pages}
use mm_regression.Chunk.{size_of_chunk, nr_chunk_of}

-- The bytes of the chunks below `k`.
pub total_size : (nr_p nr_chunk k : ℕ) → ℕ
total_size nr_p nr_chunk zero = 0
total_size nr_p nr_chunk (suc k) = total_size nr_p nr_chunk k + size_of_chunk nr_p nr_chunk k

full_chunk : (nr_p n i : ℕ) → i + 1 < n → size_of_chunk nr_p n i ≡ chunk_pages * ps
unfolding size_of_chunk
full_chunk nr_p n i h = ground (arith, mod-eq_of_lt {n = i} {m = n} (omega arith))

last_chunk :
    (nr_p n : ℕ) → 0 < nr_p → size_of_chunk nr_p (suc n) n ≡ ((nr_p - 1) % chunk_pages + 1) * ps
unfolding size_of_chunk
last_chunk nr_p n h = ground (arith, mod-eq_of_lt {n = n} {m = suc n} (omega arith))

total_size-full : (nr_p n k : ℕ) → k < n → total_size nr_p n k ≡ k * (chunk_pages * ps)
unfolding total_size
total_size-full nr_p n zero h = refl
total_size-full nr_p n (suc k) h =
    omega (arith, total_size-full nr_p n k (omega arith), full_chunk nr_p n k (omega arith))

-- The chunks of a memory type hold exactly the `nr_p` pages of -n, for at least one page.
pub total_size_lem :
    (nr_p : ℕ) → 0 < nr_p → total_size nr_p (nr_chunk_of nr_p) (nr_chunk_of nr_p) ≡ nr_p * ps
unfolding total_size nr_chunk_of
total_size_lem nr_p h =
    let n : ℕ = (nr_p - 1) / chunk_pages in
    let shape : nr_chunk_of nr_p ≡ suc n = omega arith in
    rw shape (omega (arith, total_size-full nr_p (suc n) n (omega arith), last_chunk nr_p n h))
