-- ===== src/Chunk/Visits.antt =====
-- `do_work_memory` applies its function to the chunks in the order of the array.
use mm_regression.Base.{
  get_elem?-Some, ℕ, zero, suc, ◌+◌, ◌*◌, ◌≤◌, ◌≡◌, refl, sym, ap, ◌∙◌, arith, List, [], ◌∷◌, ◌++◌,
  Option, some, none, get_elem?, length, map, Option-cases, inl, inr,
}
use mathlib.Core.List.{reverse, append_assoc, reverse-append}
use mm_regression.Base.Int.{ℤ, pos}
use mm_regression.Machine.{Call, MemChunk, State, M, Result, ok, and_then, chunk_at}
use mm_regression.Chunk.{work_chunks, work_types, do_work_memory}

-- The `left` chunks from the index `k` on.
pub range : List MemChunk → (left k : ℕ) → List MemChunk
range chunks zero k = []
range chunks (suc left) k = elim (get_elem? chunks k) [
  | none ↦ []
  | some c ↦ c ∷ range chunks left (k + 1)
]

range_step :
    (chunks : List MemChunk) (n k : ℕ) (c : MemChunk)
    → get_elem? chunks k ≡ some c
    → range chunks (suc n) k ≡ c ∷ range chunks n (k + 1)
unfolding range
range_step chunks n k c found = rw (found, range) refl

range-append :
    (chunks : List MemChunk) (n m k l : ℕ)
    → l ≡ n + k
    → l ≤ length chunks
    → range chunks n k ++ range chunks m l ≡ range chunks (n + m) k
unfolding range
range-append chunks zero m k l e h =
    ap (range chunks m) (omega arith) ∙ ap (λ t. range chunks t k) (omega arith)
range-append chunks (suc n) m k l e h =
    let (c, found) = get_elem?-Some chunks k (omega arith) in
    let sum : suc n + m ≡ suc (n + m) = omega arith in
    ap (λ t. t ++ range chunks m l) (range_step chunks n k c found)
    ∙ ap (λ t. c ∷ t) (range-append chunks n m (k + 1) l (omega arith) h)
    ∙ sym (range_step chunks (n + m) k c found)
    ∙ ap (λ t. range chunks t k) (sym sum)

range_tail : (x : MemChunk) (xs : List MemChunk) (n k : ℕ) → range (x ∷ xs) n (suc k) ≡ range xs n k
unfolding range
range_tail x xs zero k = refl
range_tail x xs (suc n) k = elim (Option-cases (get_elem? xs k)) [
  | inl missing ↦ rw (missing, range) refl
  | inr (c, found) ↦
      let shift : suc k + 1 ≡ suc (k + 1) = omega arith in
      range_step (x ∷ xs) n (suc k) c found
      ∙ ap (λ t. c ∷ t) (ap (range (x ∷ xs) n) shift ∙ range_tail x xs n (k + 1))
      ∙ sym (range_step xs n k c found)
]

range_whole : (xs : List MemChunk) → range xs (length xs) 0 ≡ xs
unfolding range
range_whole [] = refl
range_whole (x ∷ xs) = ap (λ t. x ∷ t) (range_tail x xs (length xs) 0 ∙ range_whole xs)

map-append : (f : MemChunk → Call) (cs ds : List MemChunk) → map f (cs ++ ds) ≡ map f cs ++ map f ds
map-append f [] ds = refl
map-append f (c ∷ cs) ds = ap (λ t. f c ∷ t) (map-append f cs ds)

module _ (f : MemChunk → Call) (func : MemChunk → M ℤ) where
  -- The state after the calls of `func` on `cs`, one after the other.
  abbrev pub called : List MemChunk → State → State
  called cs s = record s { trace = reverse (map f cs) ++ s.trace }

  called-append :
      (cs ds : List MemChunk) (s : State) → called ds (called cs s) ≡ called (cs ++ ds) s
  called-append cs ds s =
      ap (λ (t : List Call). record s { trace = t })
        (sym (append_assoc (reverse (map f ds)) (reverse (map f cs)) s.trace)
          ∙ ap (λ l. l ++ s.trace)
              (sym (reverse-append (map f cs) (map f ds)) ∙ ap reverse (sym (map-append f cs ds))))

  module _
      (one : (c : MemChunk) (s : State)
        → func c s ≡ (ok (pos 0), record s { trace = f c ∷ s.trace })) where
    work_chunk_step :
        (left i j : ℕ) (ret : Option ℤ) (s : State) (c : MemChunk)
        → get_elem? s.chunkset (i + j * s.nr_chunk) ≡ some c
        → work_chunks func (suc left) i j ret s
          ≡ work_chunks func left (i + 1) j (some (pos 0)) (record s { trace = f c ∷ s.trace })
    unfolding work_chunks chunk_at
    work_chunk_step left i j ret s c found = rw (found, one) refl

    work_chunks_lem :
        (left i j k : ℕ) (ret : Option ℤ) (s : State)
        → k ≡ i + j * s.nr_chunk
        → left + k ≤ length s.chunkset
        → (r : Option ℤ) × (work_chunks func left i j ret s
            ≡ (ok r, called (range s.chunkset left k) s))
    unfolding work_chunks range
    work_chunks_lem zero i j k ret s e h = (ret, refl)
    work_chunks_lem (suc left) i j k ret s e h =
        let (c, at) = get_elem?-Some s.chunkset k (omega arith) in
        let found : get_elem? s.chunkset (i + j * s.nr_chunk) ≡ some c =
          ap (get_elem? s.chunkset) (sym e) ∙ at in
        let next = record s { trace = f c ∷ s.trace } in
        let (r, rest) =
          work_chunks_lem left (i + 1) j (k + 1) (some (pos 0)) next (omega arith) (omega arith) in
        (
          r,
          work_chunk_step left i j ret s c found
              ∙ rest
              ∙ ap (λ t. (ok r, t))
                  (called-append (c ∷ []) (range s.chunkset left (k + 1)) s
                    ∙ ap (λ cs. called cs s) (sym (range_step s.chunkset left k c at))),
        )

    work_types_lem :
        (left j k : ℕ) (ret : Option ℤ) (s : State)
        → k ≡ j * s.nr_chunk
        → left * s.nr_chunk + k ≤ length s.chunkset
        → (r : Option ℤ) × (work_types func left j ret s
            ≡ (ok r, called (range s.chunkset (left * s.nr_chunk) k) s))
    unfolding work_types range
    work_types_lem zero j k ret s e h =
        let none_left : 0 * s.nr_chunk ≡ 0 = omega arith in (ret, rw none_left refl)
    work_types_lem (suc left) j k ret s e h =
        let n = s.nr_chunk in
        let more : suc left * n ≡ n + left * n = ground arith in
        let next : n + k ≡ (j + 1) * n = ground arith in
        let (r, first) = work_chunks_lem n 0 j k ret s (omega arith) (omega arith) in
        let s' = called (range s.chunkset n k) s in
        let (r', rest) = work_types_lem left (j + 1) (n + k) r s' next (omega arith) in
        (
          r',
          ap
                (λ (p : Result (Option ℤ) × State).
                  and_then p.0 (λ q. work_types func left (j + 1) q) p.1)
                first
              ∙ rest
              ∙ ap (λ t. (ok r', t))
                  (called-append (range s.chunkset n k) (range s.chunkset (left * n) (n + k)) s
                    ∙ ap (λ cs. called cs s)
                        (range-append s.chunkset n (left * n) k (n + k) refl (omega arith)
                          ∙ ap (λ m. range s.chunkset m k) (sym more))),
        )

    -- Where each application of the function makes one call and returns 0, and the array holds
    -- `nr_mem_types` times `nr_chunk` chunks, `do_work_memory` returns, and has applied the function to
    -- each chunk of the array, once, in the order of the array.
    pub do_work_memory_lem :
        (s : State)
        → s.nr_mem_types * s.nr_chunk ≡ length s.chunkset
        → (r : Option ℤ) × (do_work_memory func s ≡ (ok r, called s.chunkset s))
    unfolding do_work_memory
    do_work_memory_lem s h =
        let (r, all) = work_types_lem s.nr_mem_types 0 0 none s (omega arith) (omega arith) in
        (
          r,
          all
              ∙ ap (λ cs. (ok r, called cs s))
                  (ap (λ m. range s.chunkset m 0) h ∙ range_whole s.chunkset),
        )
