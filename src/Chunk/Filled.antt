-- ===== src/Chunk/Filled.antt =====
-- `do_mmap` fills the array of chunks: one chunk after the other, one memory type after the other.
use mm_regression.Base.{
  length-set, get_elem?-Some, ℕ, zero, suc, ◌+◌, ◌*◌, ◌^◌, ◌≤◌, ◌<◌, ◌≡◌, refl, arith, true, false,
  ◌==◌, ◌∙◌, some, get_elem?, set, length, ap, ltb, lt→ltb, get_elem?-set_ne, get_elem?-set_self,
}
use native.Mathlib.Decide.{dec_lt}
use mm_regression.Abi.{chunk_pages, ps}
use mm_regression.Backend
use mm_regression.Backend.{for_each_backend}
use mm_regression.Machine.{MemChunk, Kernel, State, ◌>>=◌, chunk_at, set_chunk}
use mm_regression.Machine.Total.{Total, Total-bind, Total-map}
use mm_regression.Chunk.{
  prepare_memory, map_chunk, map_chunks, size_of_chunk, get_size_of_chunked_mmap_area,
}
use mm_regression.Chunk.Layout.{slot}
use mm_regression.Chunk.Mapped.{IsObliging, IsMapped, map_backend-Maps}

module _ (np n : ℕ) where
  -- The chunk `i` of a memory type, mapped as the chunk `k` of all.
  pub record IsReady (type i k : ℕ) (c : MemChunk) : Type 0 where
    pub address : c.p ≡ slot k
    pub size : c.chunk_size ≡ size_of_chunk np n i
    pub mem_type : c.mem_type ≡ type

  -- From `s` to `t` the chunks from `lo` below `hi` of the type with the index `j` were mapped.
  pub record IsFilled (type j lo hi : ℕ) (s t : State) : Type 0 where
    pub ready :
        (i : ℕ)
        → lo ≤ i
        → i < hi
        → (c : MemChunk) × (get_elem? t.chunkset (i + j * n) ≡ some c)
          × IsReady type i (i + j * n) c
    pub before : (k : ℕ) → k < lo + j * n → get_elem? t.chunkset k ≡ get_elem? s.chunkset k
    pub long : length t.chunkset ≡ length s.chunkset
    pub nr_p : t.nr_p ≡ np
    pub nr_chunk : t.nr_chunk ≡ n

  -- The chunk `i` and those behind it.
  joined :
      (type j i : ℕ) (s t u : State)
      → IsFilled type j i (i + 1) s t
      → IsFilled type j (i + 1) n t u
      → IsFilled type j i n s u
  joined type j i s t u h r = record {
    ready = λ l p q. elim (dec_lt i l) [
      | yes behind ↦ r.ready l (omega arith) q
      | no here ↦
          let (c, found, ready) = h.ready l p (omega arith) in
          (c, r.before (l + j * n) (omega arith) ∙ found, ready)
    ];
    before = λ k p. r.before k (omega arith) ∙ h.before k p;
    long = r.long ∙ h.long;
    nr_p = r.nr_p;
    nr_chunk = r.nr_chunk;
  }

  -- A chunk that is ready is stored.
  set_chunk-IsFilled :
      (s t : State) (type j i : ℕ) (c : MemChunk)
      → t.chunkset ≡ s.chunkset
      → t.nr_p ≡ np
      → t.nr_chunk ≡ n
      → i + j * n < length s.chunkset
      → IsReady type i (i + j * n) c
      → Total t (set_chunk (i + j * n) c) (λ _ u. IsFilled type j i (i + 1) s u)
  unfolding set_chunk
  set_chunk-IsFilled s t type j i c same enr en long new =
      let inside : ltb (i + j * n) (length t.chunkset) ≡ true =
        lt→ltb _ _ (omega (arith, ap length same)) in
      let stored : IsFilled type j i (i + 1) s
          (record t { chunkset = set t.chunkset (i + j * n) c }) =
        record {
          ready = λ l p q.
              let e : l ≡ i = omega arith in
              (c, rw (e, same) (get_elem?-set_self s.chunkset (i + j * n) c long), rw e new);
          before = λ k p. rw same (get_elem?-set_ne s.chunkset (i + j * n) k c (omega arith));
          long = rw same (length-set s.chunkset (i + j * n) c);
          nr_p = enr;
          nr_chunk = en;
        } in
      record { at = rw inside stored }

  module _ (kernel : Kernel) (obliging : IsObliging kernel) where
    -- The chunk `mc` is mapped at the slot `k` and stored.
    map_there-IsFilled :
        (s : State) (type j i : ℕ) (mc : MemChunk)
        → s.nr_p ≡ np
        → s.nr_chunk ≡ n
        → i + j * n < length s.chunkset
        → type < Backend.nr_backend_types
        → mc.mem_type ≡ type
        → mc.chunk_size ≡ size_of_chunk np n i
        → Total s
            (prepare_memory kernel mc (slot (i + j * n)) (i * chunk_pages * ps) >>= λ c.
              set_chunk (i + j * n) c)
            (λ _ t. IsFilled type j i (i + 1) s t)
    unfolding prepare_memory
    map_there-IsFilled s type j i mc enr en long type_lt et es =
        let lt : mc.mem_type < Backend.nr_backend_types = omega (arith, et) in
        let mc' = record mc { offset = i * chunk_pages * ps } in
        Total-bind (IsMapped s mc' (slot (i + j * n)))
          (map_backend-Maps kernel obliging s mc.mem_type mc' (slot (i + j * n)) (omega arith) lt)
          λ c t h.
            set_chunk-IsFilled s t type j i c h.chunkset (h.nr_p ∙ enr) (h.nr_chunk ∙ en) long
              (record { address = h.address; size = h.size ∙ es; mem_type = h.mem_type ∙ et })

    map_chunk-IsFilled :
        (s : State) (type j i : ℕ)
        → s.nr_p ≡ np
        → s.nr_chunk ≡ n
        → i < n
        → i + j * n < length s.chunkset
        → (i + j * n) * chunk_pages < 2 ^ 31
        → type < Backend.nr_backend_types
        → Total s (map_chunk kernel type j i) (λ _ t. IsFilled type j i (i + 1) s t)
    unfolding map_chunk get_size_of_chunked_mmap_area chunk_at
    map_chunk-IsFilled s type j i enr en lt long small type_lt =
        let (mc, found) = get_elem?-Some s.chunkset (i + j * n) long in
        let fits : ltb ((i + j * n) * chunk_pages) (2 ^ 31) ≡ true = lt→ltb _ _ small in
        let some_chunks : (n == 0) ≡ false = ground arith in
        let there =
          map_there-IsFilled (record s { nr_chunk = n }) type j i
            (record mc { mem_type = type; chunk_size = size_of_chunk s.nr_p n i }) enr refl long
            type_lt refl (ap (λ m. size_of_chunk m n i) enr) in
        record { at = rw (en, fits, some_chunks, found) (there.at) }

    pub map_chunks-IsFilled :
        (left i type j : ℕ) (s : State)
        → s.nr_p ≡ np
        → s.nr_chunk ≡ n
        → i + left ≡ n
        → n + j * n ≤ length s.chunkset
        → (n + j * n) * chunk_pages ≤ 2 ^ 31
        → type < Backend.nr_backend_types
        → Total s (map_chunks kernel type j left i) (λ _ t. IsFilled type j i n s t)
    unfolding map_chunks
    map_chunks-IsFilled zero i type j s enr en total long small type_lt = record {
      at = record {
        ready = λ l p q. absurd (omega arith);
        before = λ k p. refl;
        long = refl;
        nr_p = enr;
        nr_chunk = en;
      };
    }
    map_chunks-IsFilled (suc left) i type j s enr en total long small type_lt =
        Total-bind (λ _ t. IsFilled type j i (i + 1) s t)
          (map_chunk-IsFilled s type j i enr en (omega arith) (omega arith) (omega arith) type_lt)
          λ _ t h.
            Total-map
              (map_chunks-IsFilled left (i + 1) type j t h.nr_p h.nr_chunk (omega arith)
                (omega (arith, h.long)) small type_lt)
              λ _ u r. joined type j i s t u h r
