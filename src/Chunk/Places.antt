-- ===== src/Chunk/Places.antt =====
-- Where `prepare_memory` maps a chunk, if it maps it at all.
use mm_regression.Base.{ℕ, ◌+◌, ◌≡◌, ◌≢◌, refl, ◌⊎◌, inr, arith, Bool, true, false, ◌==◌, ◌||◌, ◌∙◌}
use mm_regression.Base.Int.{ℤ, negsuc}
use mm_regression.Base.Text.{CString}
use mm_regression.Backend
use mm_regression.Backend.{for_each_backend}
use mm_regression.Machine.{MemChunk, Kernel, State, M, call, emit, ◌>>=◌}
use mm_regression.Machine.Post.{Post, Post-bind, Post-if}
use mm_regression.Chunk.{
  checked_mmap, checked_open, map_private, map_file, map_thp, map_devmem, map_backend, advise,
  alloc_shmem,
}

-- `c` is `mc` placed at `base`, or not placed.
pub record IsPlaced (mc : MemChunk) (base : ℕ) (c : MemChunk) : Type 0 where
  pub size : c.chunk_size ≡ mc.chunk_size
  pub address : (c.p ≡ 0) ⊎ (c.p ≡ base)

abbrev pub Places : State → MemChunk → ℕ → M MemChunk → Type 0
Places s mc base m = Post s m (λ c t. IsPlaced mc base c × (t.chunkset ≡ s.chunkset))

module _ (kernel : Kernel) where
  checked_mmap-at :
      (s : State) (base size prot flags : ℕ) (fd : ℤ) (offset : ℕ)
      → base ≢ 0
      → Post s
          (checked_mmap kernel base size prot flags fd offset)
          (λ a t. (a ≡ base) × (t.chunkset ≡ s.chunkset))
  unfolding checked_mmap call
  checked_mmap-at s base size prot flags fd offset ne = record { at = ground arith }

  alloc_shmem-Places :
      (s : State) (mc : MemChunk) (base : ℕ) (b : Bool)
      → Places s mc base (alloc_shmem kernel mc base b)
  unfolding alloc_shmem call
  alloc_shmem-Places s mc base b = record { at = ground arith }

  map_private-Places :
      (s : State) (mc : MemChunk) (base flags : ℕ)
      → base ≢ 0
      → Places s mc base (map_private kernel mc base flags)
  unfolding map_private
  map_private-Places s mc base flags ne =
      Post-bind (λ a t. (a ≡ base) × (t.chunkset ≡ s.chunkset))
        (checked_mmap-at s base mc.chunk_size 3 flags (negsuc 0) 0 ne)
        (λ a t h. record { at = (record { size = refl; address = inr h.0 }, h.1) })

  map_file-Places :
      (s : State) (mc : MemChunk) (base : ℕ) (fd : ℤ)
      → base ≢ 0
      → Places s mc base (map_file kernel mc base fd)
  unfolding map_file
  map_file-Places s mc base fd ne =
      Post-bind (λ a t. (a ≡ base) × (t.chunkset ≡ s.chunkset))
        (checked_mmap-at s base mc.chunk_size 3 1 fd mc.offset ne)
        (λ a t h. record { at = (record { size = refl; address = inr h.0 }, h.1) })

  advised-Places :
      (s : State) (mc : MemChunk) (base flags advice : ℕ)
      → base ≢ 0
      → Places s mc base (map_private kernel mc base flags >>= λ c. advise kernel c advice)
  unfolding advise emit
  advised-Places s mc base flags advice ne =
      Post-bind (λ c t. IsPlaced mc base c × (t.chunkset ≡ s.chunkset))
        (map_private-Places s mc base flags ne) (λ c t h. record { at = h })

  map_thp-Places :
      (s : State) (mc : MemChunk) (base : ℕ) → base ≢ 0 → Places s mc base (map_thp kernel mc base)
  unfolding map_thp call
  map_thp-Places s mc base ne =
      Post-bind (λ c t. IsPlaced mc base c × (t.chunkset ≡ s.chunkset))
        (map_private-Places s mc base _ ne) (λ c t h. record { at = ground arith })

  checked_open-keeps :
      (s : State) (path : CString)
      → Post s (checked_open kernel path) (λ _ t. t.chunkset ≡ s.chunkset)
  unfolding checked_open call
  checked_open-keeps s path = record { at = ground arith }

  map_devmem-Places :
      (s : State) (mc : MemChunk) (base : ℕ)
      → base ≢ 0
      → Places s mc base (map_devmem kernel mc base)
  unfolding map_devmem
  map_devmem-Places s mc base ne =
      Post-bind (λ _ t. t.chunkset ≡ s.chunkset) (checked_open-keeps s _)
        λ dev t h.
          Post-bind (λ a u. (a ≡ base) × (u.chunkset ≡ t.chunkset))
            (checked_mmap-at t base _ _ _ _ _ ne)
            λ a u ha.
              Post-bind (λ b v. (b ≡ base + 4096) × (v.chunkset ≡ u.chunkset))
                (checked_mmap-at u (base + 4096) _ _ _ _ _ (omega arith))
                λ b v hb.
                  Post-bind (λ c w. (c ≡ base + 8192) × (w.chunkset ≡ v.chunkset))
                    (checked_mmap-at v (base + 8192) _ _ _ _ _ (omega arith))
                    λ c w hc. record {
                      at = (record { size = refl; address = inr ha.0 }, hc.1 ∙ hb.1 ∙ ha.1 ∙ h);
                    }

  pub map_backend-Places :
      (s : State) (type : ℕ) (mc : MemChunk) (base : ℕ)
      → base ≢ 0
      → (mc.p ≡ 0) ⊎ (mc.p ≡ base)
      → Places s mc base (map_backend kernel type mc base)
  unfolding map_backend
  map_backend-Places s type mc base ne old =
      Post-if (type == Backend.pagecache) (record { at = (map_file-Places s mc base s.fd ne).at })
        (Post-if (type == Backend.anonymous || type == Backend.zero_page)
          (advised-Places s mc base _ _ ne)
          (Post-if (type == Backend.thp) (map_thp-Places s mc base ne) (
            Post-if (type == Backend.hugetlb_anon) (advised-Places s mc base _ _ ne) (
              Post-if (type == Backend.hugetlb_shmem) (alloc_shmem-Places s mc base true) (
                Post-if (type == Backend.hugetlb_file)
                  (record { at = (map_file-Places s mc base s.hugetlbfd ne).at })
                  (Post-if (type == Backend.ksm) (advised-Places s mc base _ _ ne) (
                    Post-if (type == Backend.huge_zero) (advised-Places s mc base _ _ ne) (
                      Post-if (type == Backend.normal_shmem) (alloc_shmem-Places s mc base false) (
                        Post-if (type == Backend.devmem) (map_devmem-Places s mc base ne)
                          (record { at = (record { size = refl; address = old }, refl) }))))))))))
