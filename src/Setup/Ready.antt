-- ===== src/Setup/Ready.antt =====
-- What `setup` leaves behind is what the operations start from.
use mm_regression.Base.{
  ℕ, ◌+◌, ◌*◌, ◌-◌, ◌/◌, ◌^◌, ◌≤◌, ◌≡◌, refl, ap, ◌∙◌, arith, ◌⊎◌, true, false, length, ltb, ◌==◌,
  bit_and, inl, inr, Bool-cases, length-replicate,
}
use mathlib.Core.Path.{subst}
use mm_regression.Abi.{chunk_pages}
use mm_regression.Backend
use mm_regression.Backend.{be, for_each_backend, get_nr_mem_types}
use mm_regression.Machine.{Kernel, State, ◌>>◌}
use mm_regression.Machine.Total.{Total, Total-bind, Total-map}
use mm_regression.Chunk.{nr_chunk_of, do_mmap}
use mm_regression.Chunk.Mapped.{IsObliging}
use mm_regression.Chunk.Complete.{IsComplete, do_mmap-IsComplete}
use mm_regression.Setup.{zero_chunk, allocate_chunks, check_devmem, setup}
use mm_regression.Setup.Files.{HasFiles, HasPaths, IsKept, create_files-Total}

-- -B devmem goes with no other type.
abbrev pub IsSoleDevmem : ℕ → Type 0
IsSoleDevmem bitmap =
    ((bit_and bitmap (be Backend.devmem) == 0) ≡ true)
    ⊎ ((bit_and bitmap (2 ^ 64 - 1 - be Backend.devmem) == 0) ≡ true)

-- The chosen types are as in `s`, and the array of chunks has a place for each chunk of each.
pub record IsReady (s t : State) : Type 0 where
  pub backend_bitmap : t.backend_bitmap ≡ s.backend_bitmap
  pub nr_p : (t.nr_p ≡ s.nr_p) ⊎ (t.nr_p ≡ 1)
  pub nr_chunk : t.nr_chunk ≡ nr_chunk_of t.nr_p
  pub nr_mem_types : t.nr_mem_types ≡ length (for_each_backend s.backend_bitmap)
  pub room : length t.chunkset ≡ length (for_each_backend s.backend_bitmap) * t.nr_chunk
  pub small : length (for_each_backend s.backend_bitmap) * t.nr_chunk * chunk_pages ≤ 2 ^ 31

-- The pages of all chunks fit an `int`.
abbrev pub IsSmall : State → Type 0
IsSmall s = length (for_each_backend s.backend_bitmap) * nr_chunk_of s.nr_p * chunk_pages ≤ 2 ^ 31

allocate_chunks-IsReady :
    (kernel : Kernel) (s t : State)
    → t.backend_bitmap ≡ s.backend_bitmap
    → (t.nr_p ≡ s.nr_p) ⊎ (t.nr_p ≡ 1)
    → length (for_each_backend s.backend_bitmap) * nr_chunk_of t.nr_p * chunk_pages ≤ 2 ^ 31
    → Total t (allocate_chunks kernel) (λ _ u. IsReady s u)
unfolding allocate_chunks get_nr_mem_types
allocate_chunks-IsReady kernel s t eb en small =
    let types : ℕ → ℕ = λ bitmap. length (for_each_backend bitmap) in
    let total : ℕ = nr_chunk_of t.nr_p * types t.backend_bitmap in
    let same : types t.backend_bitmap ≡ types s.backend_bitmap = ap types eb in
    let fits : ltb total (2 ^ 31) ≡ true = rw same (ground arith) in
    record {
      at = rw fits record {
        backend_bitmap = eb;
        nr_p = en;
        nr_chunk = refl;
        nr_mem_types = same;
        small = small;
        room =
            length-replicate total zero_chunk
            ∙ (ap (λ n. nr_chunk_of t.nr_p * n) same ∙ omega arith);
      };
    }

-- One chunk for each type is not more than the chunks of all pages.
one_chunk :
    (types n : ℕ) → types * nr_chunk_of 1 * chunk_pages ≤ types * nr_chunk_of n * chunk_pages
unfolding nr_chunk_of
one_chunk types n =
    let q : ℕ = (n - 1) / chunk_pages in
    let e : types * (q + 1) ≡ types * q + types = omega arith in omega (arith, e)

module _ (kernel : Kernel) where
  check_devmem-IsReady :
      (s t : State)
      → IsKept s t
      → IsSoleDevmem s.backend_bitmap
      → IsSmall s
      → Total t (check_devmem kernel >> allocate_chunks kernel) (λ _ u. IsReady s u)
  unfolding check_devmem
  check_devmem-IsReady s t h sole small =
      elim (Bool-cases (bit_and s.backend_bitmap (be Backend.devmem) == 0)) [
        | inl absent ↦
            let here : (bit_and t.backend_bitmap (be Backend.devmem) == 0) ≡ true =
              rw (h.backend_bitmap) absent in
            record {
              at =
                  rw here
                    (allocate_chunks-IsReady kernel s t h.backend_bitmap (inl h.nr_p)
                      (rw (h.nr_p) small)).at;
            }
        | inr present ↦ elim sole [
          | inl absent ↦ absurd (ground arith)
          | inr alone ↦
              let there : (bit_and t.backend_bitmap (be Backend.devmem) == 0) ≡ false =
                rw (h.backend_bitmap) present in
              let sole' : (bit_and t.backend_bitmap (2 ^ 64 - 1 - be Backend.devmem) == 0) ≡ true =
                rw (h.backend_bitmap) alone in
              let types : ℕ = length (for_each_backend s.backend_bitmap) in
              let one =
                allocate_chunks-IsReady kernel s (record t { nr_p = 1 }) h.backend_bitmap (inr refl)
                  (omega (arith, one_chunk types s.nr_p, small)) in
              record { at = rw (there, sole') one.at }
        ]
      ]

  pub setup-IsReady :
      (s : State)
      → HasFiles kernel
      → HasPaths s
      → IsSoleDevmem s.backend_bitmap
      → IsSmall s
      → Total s (setup kernel) (λ _ t. IsReady s t)
  unfolding setup
  setup-IsReady s files paths sole small =
      let all =
        Total-bind {f = λ _. check_devmem kernel >> allocate_chunks kernel} (λ _ t. IsKept s t)
          (create_files-Total kernel files s paths)
          λ _ t h. check_devmem-IsReady s t h sole small in
      record { at = all.at }

-- Where the files can be opened, their paths have room, -B devmem is alone and the pages of all
-- chunks fit an `int`, under a kernel that maps what is asked for `setup` and then `do_mmap`
-- return: `setup` chooses the array of chunks, and `do_mmap` maps every chunk of every chosen
-- type in it at its own slot.
pub setup-do_mmap-IsComplete :
    (kernel : Kernel) (s : State)
    → IsObliging kernel
    → HasFiles kernel
    → HasPaths s
    → IsSoleDevmem s.backend_bitmap
    → IsSmall s
    → Total s (setup kernel >> do_mmap kernel) (λ _ t.
      (u : State) × IsReady s u
      × IsComplete u.nr_p u.nr_chunk (for_each_backend s.backend_bitmap) 0 u t)
setup-do_mmap-IsComplete kernel s obliging files paths sole small =
    Total-bind {f = λ _. do_mmap kernel} (λ _ u. IsReady s u)
      (setup-IsReady kernel s files paths sole small)
      λ _ u h.
        let bits : for_each_backend u.backend_bitmap ≡ for_each_backend s.backend_bitmap =
          ap for_each_backend h.backend_bitmap in
        Total-map
          (do_mmap-IsComplete kernel u obliging (rw bits (omega (arith, h.room))) (rw bits h.small))
          λ _ t k. (u, h, subst (λ types. IsComplete u.nr_p u.nr_chunk types 0 u t) bits k)
