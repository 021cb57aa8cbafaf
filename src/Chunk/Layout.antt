-- ===== src/Chunk/Layout.antt =====
-- Where `do_mmap` puts the chunks.
use mm_regression.Base.{
  ℕ, zero, suc, ◌+◌, ◌*◌, ◌≤◌, ◌<◌, ◌≡◌, ◌≢◌, ◌⊎◌, inl, inr, arith, ◌∙◌, List, [], ◌∷◌, some, set,
  get_elem?, length, get_elem?-set_ne, get_elem?-set_self, sym, ap, ltb, Bool-cases, ltb→lt,
}
use mm_regression.Backend.{for_each_backend}
use mm_regression.Machine.{MemChunk, Kernel, State, int_mul, chunk_at, set_chunk}
use mm_regression.Machine.Post.{Post-mono, Post, Post-bind}
use mm_regression.Abi.{ps, chunk_pages, addr_input}
use native.Mathlib.Decide.{ℕ_discrete}
use mathlib.Core.Path.{subst, subst₂}
use mm_regression.Chunk.{
  do_mmap, map_chunk, map_chunks, map_types, get_size_of_chunked_mmap_area, size_of_chunk,
  prepare_memory,
}
use mm_regression.Chunk.Places.{IsPlaced, map_backend-Places}

-- The address of the chunk `k`, and the bytes from it to the next.
abbrev pub slot_bytes : ℕ
slot_bytes = chunk_pages * ps

abbrev pub slot : ℕ → ℕ
slot k = addr_input + k * chunk_pages * ps

-- The chunk `k` stands at its slot, or is not mapped, and fits the slot.
pub record IsSlotted (k : ℕ) (c : MemChunk) : Type 0 where
  pub address : (c.p ≡ 0) ⊎ (c.p ≡ slot k)
  pub fits : c.chunk_size ≤ slot_bytes

pub record IsLaidOut (chunks : List MemChunk) : Type 0 where
  pub at : (k : ℕ) (c : MemChunk) → get_elem? chunks k ≡ some c → IsSlotted k c

set-IsLaidOut :
    (chunks : List MemChunk) (k : ℕ) (c : MemChunk)
    → IsLaidOut chunks
    → k < length chunks
    → IsSlotted k c
    → IsLaidOut (set chunks k c)
set-IsLaidOut chunks k c h lt new = record {
  at = λ j d e. elim (ℕ_discrete k j) [
    | yes same ↦
        let here : get_elem? (set chunks k c) k ≡ some d =
          subst (λ n. get_elem? (set chunks k c) n ≡ some d) (sym same) e in
        let found : c ≡ d = cc (get_elem?-set_self chunks k c lt) in subst₂ IsSlotted same found new
    | no other ↦ h.at j d (sym (get_elem?-set_ne chunks k j c other) ∙ e)
  ];
}

size_of_chunk-le : (nr_p nr_chunk i : ℕ) → size_of_chunk nr_p nr_chunk i ≤ slot_bytes
unfolding size_of_chunk
size_of_chunk-le nr_p nr_chunk i = ground arith

module _ (kernel : Kernel) where
  chunk_at-keeps :
      (s : State) (k : ℕ) → Post s (chunk_at k) (λ c t. (get_elem? s.chunkset k ≡ some c) × (t ≡ s))
  unfolding chunk_at
  chunk_at-keeps s k = record { at = ground arith }

  set_chunk-IsLaidOut :
      (s : State) (k : ℕ) (c : MemChunk)
      → IsLaidOut s.chunkset
      → IsSlotted k c
      → Post s (set_chunk k c) (λ _ t. IsLaidOut t.chunkset)
  unfolding set_chunk
  set_chunk-IsLaidOut s k c h new = elim (Bool-cases (ltb k (length s.chunkset))) [
    | inl lt ↦ record { at = rw lt (set-IsLaidOut s.chunkset k c h (ltb→lt _ _ lt) new) }
    | inr ge ↦ record { at = rw ge tt }
  ]

  int_mul-eq : (s : State) (a b : ℕ) → Post s (int_mul a b) (λ n t. (n ≡ a * b) × (t ≡ s))
  int_mul-eq s a b = record { at = ground arith }

  get_size-le :
      (s : State) (i : ℕ)
      → Post s (get_size_of_chunked_mmap_area i) (λ n t. (n ≤ slot_bytes) × (t ≡ s))
  unfolding get_size_of_chunked_mmap_area
  get_size-le s i = record { at = ground (arith, size_of_chunk-le s.nr_p s.nr_chunk i) }

  map_chunk-IsLaidOut :
      (s : State) (type j i : ℕ)
      → IsLaidOut s.chunkset
      → Post s (map_chunk kernel type j i) (λ _ t. IsLaidOut t.chunkset)
  unfolding map_chunk prepare_memory
  map_chunk-IsLaidOut s type j i h =
      let k = i + j * s.nr_chunk in
      let body =
        Post-bind (λ n t. (n ≡ k * chunk_pages) × (t ≡ s)) (int_mul-eq s k chunk_pages)
          λ pages t hp.
            Post-bind (λ n u. (n ≤ slot_bytes) × (u ≡ t)) (get_size-le t i)
              λ size u hs.
                Post-bind (λ c v. (get_elem? u.chunkset k ≡ some c) × (v ≡ u)) (chunk_at-keeps u k)
                  λ mc v hc.
                    let ev : v ≡ s = hc.1 ∙ hs.1 ∙ hp.1 in
                    let base : ℕ = addr_input + pages * ps in
                    let mc' : MemChunk = record mc {
                      mem_type = type;
                      chunk_size = size;
                      offset = i * chunk_pages * ps;
                    } in
                    let slotted : IsSlotted k mc =
                      h.at k mc (sym (ap (λ r. get_elem? r.chunkset k) (hs.1 ∙ hp.1)) ∙ hc.0) in
                    Post-bind (λ c w. IsPlaced mc' base c × (w.chunkset ≡ v.chunkset))
                      (record {
                        at =
                            (map_backend-Places kernel v type mc' base (omega arith) (
                              subst (λ n. (mc.p ≡ 0) ⊎ (mc.p ≡ addr_input + n * ps)) (sym hp.0)
                                slotted.address)).at;
                      })
                      λ c w hw.
                        set_chunk-IsLaidOut w k c
                          (subst IsLaidOut (sym (hw.1 ∙ ap (λ r. r.chunkset) ev)) h)
                          (record {
                            address =
                                subst (λ n. (c.p ≡ 0) ⊎ (c.p ≡ addr_input + n * ps)) hp.0
                                  hw.0.address;
                            fits = rw hw.0.size hs.0;
                          }) in
      record { at = body.at }

  map_chunks-IsLaidOut :
      (left i type j : ℕ) (s : State)
      → IsLaidOut s.chunkset
      → Post s (map_chunks kernel type j left i) (λ _ t. IsLaidOut t.chunkset)
  unfolding map_chunks
  map_chunks-IsLaidOut zero i type j s h = record { at = h }
  map_chunks-IsLaidOut (suc left) i type j s h =
      Post-bind (λ _ t. IsLaidOut t.chunkset) (map_chunk-IsLaidOut s type j i h)
        λ _ t ht. map_chunks-IsLaidOut left (i + 1) type j t ht

  map_types-IsLaidOut :
      (types : List ℕ) (j : ℕ) (s : State)
      → IsLaidOut s.chunkset
      → Post s (map_types kernel types j) (λ _ t. IsLaidOut t.chunkset)
  unfolding map_types
  map_types-IsLaidOut [] j s h = record { at = h }
  map_types-IsLaidOut (type ∷ types) j s h =
      let rest =
        Post-bind (λ _ t. IsLaidOut t.chunkset) (map_chunks-IsLaidOut s.nr_chunk 0 type j s h)
          λ _ t ht. map_types-IsLaidOut types (j + 1) t ht in
      record { at = rest.at }

  -- Whatever the kernel answers: where `do_mmap` returns, every chunk stands at its slot or is
  -- not mapped, and fits its slot, if that was so before.
  pub do_mmap-IsLaidOut :
      (s : State) → IsLaidOut s.chunkset → Post s (do_mmap kernel) (λ _ t. IsLaidOut t.chunkset)
  unfolding do_mmap
  do_mmap-IsLaidOut s h = record {
    at = (map_types-IsLaidOut (for_each_backend s.backend_bitmap) 0 s h).at;
  }

IsLaidOut-disjoint :
    (chunks : List MemChunk) (k l : ℕ) (c d : MemChunk)
    → IsLaidOut chunks
    → get_elem? chunks k ≡ some c
    → get_elem? chunks l ≡ some d
    → k < l
    → c.p ≢ 0
    → d.p ≢ 0
    → c.p + c.chunk_size ≤ d.p
IsLaidOut-disjoint chunks k l c d h hc hd lt nc nd = omega (arith, h.at k c hc, h.at l d hd)

-- Two mapped chunks of the array share no byte: the earlier one ends before the later one begins.
pub record IsDisjoint (chunks : List MemChunk) : Type 0 where
  pub at :
      (k l : ℕ) (c d : MemChunk)
      → get_elem? chunks k ≡ some c
      → get_elem? chunks l ≡ some d
      → k < l
      → c.p ≢ 0
      → d.p ≢ 0
      → c.p + c.chunk_size ≤ d.p

-- Whatever the kernel answers: where no chunk is mapped yet and `do_mmap` returns, no two mapped
-- chunks of the array, of one memory type or of two, share a byte.
pub do_mmap-IsDisjoint :
    (kernel : Kernel) (s : State)
    → ((k : ℕ) (c : MemChunk) → get_elem? s.chunkset k ≡ some c → (c.p ≡ 0) × (c.chunk_size ≡ 0))
    → Post s (do_mmap kernel) (λ _ t. IsDisjoint t.chunkset)
do_mmap-IsDisjoint kernel s blank =
    let start : IsLaidOut s.chunkset = record {
      at = λ k c e. let (p, n) = blank k c e in record { address = inl p; fits = omega arith };
    } in
    Post-mono (do_mmap-IsLaidOut kernel s start)
      λ _ t h. record { at = λ k l c d. IsLaidOut-disjoint t.chunkset k l c d h }
