-- ===== src/Chunk/Mapped.antt =====
-- Under a kernel that grants what is asked, `do_mmap` maps every chunk.
use mm_regression.Abi.{ps}
use mm_regression.Base.{
  ℕ, ◌+◌, ◌*◌, ◌<◌, ◌≡◌, refl, arith, Bool, true, false, ◌==◌, ◌||◌, List, ◌∷◌,
}
use mm_regression.Base.Int.{ℤ, pos, is_neg}
use mm_regression.Base.Text.{CString}
use mm_regression.Backend
use mm_regression.Machine.{Call, MemChunk, Kernel, State, M, call, emit, ok, ◌>>=◌}
use mm_regression.Machine.Total.{Total, Total-if}
use mm_regression.Chunk.{
  checked_mmap, checked_open, map_private, map_file, map_thp, map_devmem, map_backend, advise,
  alloc_shmem,
}

-- The calls that map memory at an address succeed.
pub record IsObliging (kernel : Kernel) : Type 0 where
  pub maps :
      (t : List Call) (a size prot flags : ℕ) (fd : ℤ) (offset : ℕ)
      → 0 < a
      → kernel t (Call.mmap a size prot flags fd offset) ≡ pos a
  pub advises : (t : List Call) (a size advice : ℕ) → kernel t (Call.madvise a size advice) ≡ pos 0
  pub shares :
      (t : List Call) (key size flags : ℕ) → is_neg (kernel t (Call.shmget key size flags)) ≡ false
  pub attaches : (t : List Call) (id : ℤ) (a : ℕ) → 0 < a → kernel t (Call.shmat id a) ≡ pos a
  pub opens : (t : List Call) (path : CString) → is_neg (kernel t (Call.open_rw path)) ≡ false

-- `c` is `mc` mapped at `base`, and `t` is `s` but for the calls made.
pub record IsMapped (s : State) (mc : MemChunk) (base : ℕ) (c : MemChunk) (t : State) : Type 0 where
  pub address : c.p ≡ base
  pub size : c.chunk_size ≡ mc.chunk_size
  pub mem_type : c.mem_type ≡ mc.mem_type
  pub chunkset : t.chunkset ≡ s.chunkset
  pub nr_p : t.nr_p ≡ s.nr_p
  pub nr_chunk : t.nr_chunk ≡ s.nr_chunk

abbrev pub Maps : State → MemChunk → ℕ → M MemChunk → Type 0
Maps s mc base m = Total s m (IsMapped s mc base)

mapped :
    (s : State) (mc : MemChunk) (base : ℕ) (key : ℤ) (offset : ℕ) (t : List Call)
    → IsMapped s mc base
        (record mc { p = base; shmkey = key; offset = offset })
        (record s { trace = t })
mapped s mc base key offset t = record {
  address = refl;
  size = refl;
  mem_type = refl;
  chunkset = refl;
  nr_p = refl;
  nr_chunk = refl;
}

module _ (kernel : Kernel) (obliging : IsObliging kernel) where
  checked_mmap_lem :
      (s : State) (base size prot flags : ℕ) (fd : ℤ) (offset : ℕ)
      → 0 < base
      → checked_mmap kernel base size prot flags fd offset s
        ≡ (ok base, record s { trace = Call.mmap base size prot flags fd offset ∷ s.trace })
  unfolding checked_mmap call
  checked_mmap_lem s base size prot flags fd offset h =
      rw (obliging.maps _ _ _ _ _ _ _ h) (ground arith)

  map_private-Maps :
      (s : State) (mc : MemChunk) (base flags : ℕ)
      → 0 < base
      → Maps s mc base (map_private kernel mc base flags)
  unfolding map_private
  map_private-Maps s mc base flags h = record {
    at = rw (checked_mmap_lem _ _ _ _ _ _ _ h) (mapped s mc base _ mc.offset _);
  }

  map_file-Maps :
      (s : State) (mc : MemChunk) (base : ℕ) (fd : ℤ)
      → 0 < base
      → Maps s mc base (map_file kernel mc base fd)
  unfolding map_file
  map_file-Maps s mc base fd h = record {
    at = rw (checked_mmap_lem _ _ _ _ _ _ _ h) (mapped s mc base _ mc.offset _);
  }

  advised-Maps :
      (s : State) (mc : MemChunk) (base flags advice : ℕ)
      → 0 < base
      → Maps s mc base (map_private kernel mc base flags >>= λ c. advise kernel c advice)
  unfolding map_private advise emit
  advised-Maps s mc base flags advice h = record {
    at = rw (checked_mmap_lem _ _ _ _ _ _ _ h) (mapped s mc base _ mc.offset _);
  }

  map_thp-Maps :
      (s : State) (mc : MemChunk) (base : ℕ) → 0 < base → Maps s mc base (map_thp kernel mc base)
  unfolding map_thp map_private call
  map_thp-Maps s mc base h = record {
    at = rw (checked_mmap_lem _ _ _ _ _ _ _ h, obliging.advises) (mapped s mc base _ mc.offset _);
  }

  alloc_shmem-Maps :
      (s : State) (mc : MemChunk) (base : ℕ) (b : Bool)
      → 0 < base
      → Maps s mc base (alloc_shmem kernel mc base b)
  unfolding alloc_shmem call
  alloc_shmem-Maps s mc base b h =
      let same : (base == base) ≡ true = ground arith in
      record {
        at = rw (obliging.shares, obliging.attaches _ _ _ h, same) (mapped s mc base _ mc.offset _);
      }

  map_devmem-Maps :
      (s : State) (mc : MemChunk) (base : ℕ) → 0 < base → Maps s mc base (map_devmem kernel mc base)
  unfolding map_devmem checked_open call
  map_devmem-Maps s mc base h = record {
    at =
        rw
          (
            obliging.opens,
            checked_mmap_lem _ _ _ _ _ _ _ h,
            checked_mmap_lem _ (base + ps) _ _ _ _ _ (omega arith),
            checked_mmap_lem _ (base + 2 * ps) _ _ _ _ _ (omega arith),
          )
          (mapped s mc base _ mc.offset _);
  }

  pub map_backend-Maps :
      (s : State) (type : ℕ) (mc : MemChunk) (base : ℕ)
      → 0 < base
      → type < Backend.nr_backend_types
      → Maps s mc base (map_backend kernel type mc base)
  unfolding map_backend
  map_backend-Maps s type mc base h lt =
      Total-if (type == Backend.pagecache)
        (λ _. record { at = (map_file-Maps s mc base s.fd h).at })
        λ n0.
          Total-if (type == Backend.anonymous || type == Backend.zero_page)
            (λ _. advised-Maps s mc base _ _ h)
            λ n1.
              Total-if (type == Backend.thp) (λ _. map_thp-Maps s mc base h)
                λ n2.
                  Total-if (type == Backend.hugetlb_anon) (λ _. advised-Maps s mc base _ _ h)
                    λ n3.
                      Total-if (type == Backend.hugetlb_shmem)
                        (λ _. alloc_shmem-Maps s mc base true h)
                        λ n4.
                          Total-if (type == Backend.hugetlb_file)
                            (λ _. record { at = (map_file-Maps s mc base s.hugetlbfd h).at })
                            λ n5.
                              Total-if (type == Backend.ksm) (λ _. advised-Maps s mc base _ _ h)
                                λ n6.
                                  Total-if (type == Backend.huge_zero)
                                    (λ _. advised-Maps s mc base _ _ h)
                                    λ n8.
                                      Total-if (type == Backend.normal_shmem)
                                        (λ _. alloc_shmem-Maps s mc base false h)
                                        λ n9.
                                          Total-if (type == Backend.devmem)
                                            (λ _. map_devmem-Maps s mc base h)
                                            λ n10. absurd (ground arith)
