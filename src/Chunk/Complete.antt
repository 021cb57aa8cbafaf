-- ===== src/Chunk/Complete.antt =====
-- `do_mmap` maps all chunks of all chosen memory types.
use mm_regression.Base.{
  ℕ, zero, suc, ◌+◌, ◌*◌, ◌^◌, ◌≤◌, ◌<◌, ◌≡◌, refl, arith, ◌∙◌, List, [], ◌∷◌, some, get_elem?,
  length, ap, All, sym, Bool-cases, inl, inr,
}
use mathlib.Core.Path.{subst}
use mm_regression.Base.Bits.{test_bit}
use mm_regression.Abi.{chunk_pages}
use mm_regression.Backend.{for_each_backend, nr_backend_types}
use mm_regression.Backend.Walk.{chosen, for_each_backend-eq-chosen}
use mm_regression.Machine.{MemChunk, Kernel, State, ◌>>◌}
use mm_regression.Machine.Total.{Total, Total-bind, Total-map}
use mm_regression.Chunk.{map_types, map_chunks, do_mmap}
use mm_regression.Chunk.Mapped.{IsObliging}
use mm_regression.Chunk.Filled.{IsReady, IsFilled, map_chunks-IsFilled}

module _ (np n : ℕ) where
  -- From `s` to `t` the chunks of all of `types` were mapped, the first of which has the index `j`.
  pub record IsComplete (types : List ℕ) (j : ℕ) (s t : State) : Type 0 where
    pub ready :
        (l type i : ℕ)
        → get_elem? types l ≡ some type
        → i < n
        → (c : MemChunk) × (get_elem? t.chunkset (i + (j + l) * n) ≡ some c)
          × IsReady np n type i (i + (j + l) * n) c
    pub before : (k : ℕ) → k < j * n → get_elem? t.chunkset k ≡ get_elem? s.chunkset k
    pub long : length t.chunkset ≡ length s.chunkset

  next_type : (j : ℕ) → (j + 1) * n ≡ n + j * n
  next_type j = ground arith

  more_types : (j m : ℕ) → (j + suc m) * n ≡ (j + 1 + m) * n
  more_types j m = ap (λ t. t * n) (omega arith)

  room : (j m : ℕ) → n + j * n ≤ (j + suc m) * n
  room j m = ground arith

  joined_types :
      (type : ℕ) (types : List ℕ) (j : ℕ) (s t u : State)
      → IsFilled np n type j 0 n s t
      → IsComplete types (j + 1) t u
      → IsComplete (type ∷ types) j s u
  joined_types type types j s t u h r = record {
    ready = ready;
    before = λ k p. r.before k (omega (arith, next_type j)) ∙ h.before k (omega arith);
    long = r.long ∙ h.long;
  }
    where
      ready :
          (l a i : ℕ)
          → get_elem? (type ∷ types) l ≡ some a
          → i < n
          → (c : MemChunk) × (get_elem? u.chunkset (i + (j + l) * n) ≡ some c)
            × IsReady np n a i (i + (j + l) * n) c
      ready zero a i e p =
          let (c, found, here) = h.ready i (omega arith) p in
          let same : type ≡ a = ground arith in
          let at : j + 0 ≡ j = omega arith in
          (
            c,
            rw at (r.before (i + j * n) (omega (arith, next_type j)) ∙ found),
            rw at (subst (λ b. IsReady np n b i (i + j * n) c) same here),
          )
      ready (suc l) a i e p = rw more_types (r.ready l a i e p)

  module _ (kernel : Kernel) (obliging : IsObliging kernel) where
    map_types-IsComplete :
        (types : List ℕ) (j : ℕ) (s : State)
        → s.nr_p ≡ np
        → s.nr_chunk ≡ n
        → (j + length types) * n ≤ length s.chunkset
        → (j + length types) * n * chunk_pages ≤ 2 ^ 31
        → All (λ type. type < nr_backend_types) types
        → Total s (map_types kernel types j) (λ _ t. IsComplete types j s t)
    unfolding map_types
    map_types-IsComplete [] j s enr en long small lt = record {
      at = record {
        ready = λ l type i e p. absurd (ground arith);
        before = λ k p. refl;
        long = refl;
      };
    }
    map_types-IsComplete (type ∷ types) j s enr en long small lt =
        let count = length types in
        let first = room j count in
        let next = more_types j count in
        let body =
          Total-bind (λ _ t. IsFilled np n type j 0 n s t)
            (map_chunks-IsFilled np n kernel obliging n 0 type j s enr en (omega arith)
              (omega arith) (omega arith) lt.0)
            λ _ t h.
              Total-map
                (map_types-IsComplete types (j + 1) t h.nr_p h.nr_chunk (omega (arith, h.long))
                  (omega arith) lt.1)
                λ _ u r. joined_types type types j s t u h r in
        record {
          at =
              (subst
                (λ m.
                  Total s (map_chunks kernel type j m 0 >> map_types kernel types (j + 1))
                    (λ _ t. IsComplete (type ∷ types) j s t))
                (sym en) body).at;
        }

chosen-AllBelow :
    (bitmap left i : ℕ)
    → i + left ≡ nr_backend_types
    → All (λ type. type < nr_backend_types) (chosen bitmap left i)
unfolding chosen
chosen-AllBelow bitmap zero i e = tt
chosen-AllBelow bitmap (suc left) i e = elim (Bool-cases (test_bit bitmap i)) [
  | inl here ↦ rw here (omega arith, chosen-AllBelow bitmap left (i + 1) (omega arith))
  | inr clear ↦ rw clear (chosen-AllBelow bitmap left (i + 1) (omega arith))
]

-- Where the array has a place for each chunk of each chosen memory type, and the pages of all
-- chunks fit an `int`, under a kernel that grants what is asked `do_mmap` returns, and then every
-- chunk of every chosen type is mapped at its own slot, with its size and its type.
pub do_mmap-IsComplete :
    (kernel : Kernel) (s : State)
    → IsObliging kernel
    → length (for_each_backend s.backend_bitmap) * s.nr_chunk ≤ length s.chunkset
    → length (for_each_backend s.backend_bitmap) * s.nr_chunk * chunk_pages ≤ 2 ^ 31
    → Total s
        (do_mmap kernel)
        (λ _ t. IsComplete s.nr_p s.nr_chunk (for_each_backend s.backend_bitmap) 0 s t)
unfolding do_mmap
do_mmap-IsComplete kernel s obliging long small =
    let types = for_each_backend s.backend_bitmap in
    let below : All (λ type. type < nr_backend_types) types =
      subst (All (λ type. type < nr_backend_types))
        (sym (for_each_backend-eq-chosen s.backend_bitmap))
        (chosen-AllBelow s.backend_bitmap nr_backend_types 0 refl) in
    let first : 0 + length types ≡ length types = omega arith in
    let all =
      map_types-IsComplete s.nr_p s.nr_chunk kernel obliging types 0 s refl refl (rw first long)
        (rw first small) below in
    record { at = all.at }
