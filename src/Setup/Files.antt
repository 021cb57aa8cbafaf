-- ===== src/Setup/Files.antt =====
-- The files of `setup` are there, and leave the options as they are.
use mm_regression.Base.{
  ℕ, ◌<◌, ◌≡◌, refl, ◌∙◌, arith, List, ◌∷◌, ◌++◌, ◌⊎◌, true, false, Option, none, some, length, ltb,
  ◌==◌, bit_and, inl, inr, Bool-cases,
}
use mm_regression.Base.Int.{ℤ, is_minus_one, is_zero}
use mm_regression.Base.Text.{CString, codes}
use mm_regression.Abi.{ps, eexist}
use mm_regression.Backend
use mm_regression.Backend.{be, for_each_backend, get_nr_mem_types}
use mm_regression.Machine.{Call, Kernel, State, call, emit, as_word, times, into_buffer, ◌>>=◌}
use mm_regression.Machine.Total.{Total, Total-bind, Total-if, Total-map, Total-present, Total-times}
use mm_regression.Chunk.{checked_mmap}
use mm_regression.Setup.{
  create_workdir, open_regular, create_huge, hugetlbfs_file, regular_if_chosen, huge_if_chosen,
  create_regular_file, create_hugetlbfs_file, create_files,
}

-- A directory is made or is there, a file can be opened and be mapped anywhere.
pub record HasFiles (kernel : Kernel) : Type 0 where
  pub makes :
      (t : List Call) (dpath : CString)
      → (is_zero (kernel t (Call.mkdir dpath)) ≡ true)
        ⊎ (as_word (kernel (Call.mkdir dpath ∷ t) Call.errno) ≡ eexist)
  pub maps :
      (t : List Call) (size prot flags : ℕ) (fd : ℤ) (offset : ℕ)
      → is_minus_one (kernel t (Call.mmap 0 size prot flags fd offset)) ≡ false
  pub opens : (t : List Call) (path : CString) → is_minus_one (kernel t (Call.open_rw path)) ≡ false
  pub creates :
      (t : List Call) (path : CString) → is_minus_one (kernel t (Call.create_rw path)) ≡ false

-- The paths that `setup` builds have their place in the buffers, and -F does not go with
-- -B hugetlb_file.
pub record HasPaths (s : State) : Type 0 where
  pub dir : length (s.workdir ++ codes "/hugetlbfs") < 256
  pub regular :
      (base : CString) → s.filebase ≡ some base → length (s.workdir ++ (codes "/" ++ base)) < 256
  pub huge :
      (base : CString)
      → s.filebase ≡ some base
      → length ((s.workdir ++ codes "/hugetlbfs") ++ (codes "/" ++ base)) < 256
  pub named :
      (bit_and s.backend_bitmap (be Backend.hugetlb_file) == 0) ≡ false
      → (base : CString) × (s.filebase ≡ some base)

-- `t` is `s` but for the open files and the calls made.
pub record IsKept (s t : State) : Type 0 where
  pub backend_bitmap : t.backend_bitmap ≡ s.backend_bitmap
  pub nr_p : t.nr_p ≡ s.nr_p
  pub workdir : t.workdir ≡ s.workdir
  pub filebase : t.filebase ≡ s.filebase

IsKept-more :
    (r s : State) (fd hugetlbfd : ℤ) (t : List Call)
    → IsKept r s
    → IsKept r (record s { fd = fd; hugetlbfd = hugetlbfd; trace = t })
IsKept-more r s fd hugetlbfd t h = record {
  backend_bitmap = h.backend_bitmap;
  nr_p = h.nr_p;
  workdir = h.workdir;
  filebase = h.filebase;
}

IsKept-trans : {r s t : State} → IsKept r s → IsKept s t → IsKept r t
IsKept-trans h k = record {
  backend_bitmap = k.backend_bitmap ∙ h.backend_bitmap;
  nr_p = k.nr_p ∙ h.nr_p;
  workdir = k.workdir ∙ h.workdir;
  filebase = k.filebase ∙ h.filebase;
}

IsKept-self :
    (s : State) (fd hugetlbfd : ℤ) (t : List Call)
    → IsKept s (record s { fd = fd; hugetlbfd = hugetlbfd; trace = t })
IsKept-self s fd hugetlbfd t = record {
  backend_bitmap = refl;
  nr_p = refl;
  workdir = refl;
  filebase = refl;
}

fits : {n m : ℕ} → m < n → ltb m n ≡ true
fits h = ground arith

module _ (kernel : Kernel) (files : HasFiles kernel) where
  create_workdir-Total :
      (s : State) (dpath : CString) → Total s (create_workdir kernel dpath) (λ _ t. IsKept s t)
  unfolding create_workdir call
  create_workdir-Total s dpath = elim (Bool-cases (is_zero (kernel s.trace (Call.mkdir dpath)))) [
    | inl made ↦ record { at = rw made (IsKept-self s _ _ _) }
    | inr not_made ↦ elim (files.makes s.trace dpath) [
      | inl made ↦ absurd (ground arith)
      | inr there ↦ record { at = rw (not_made, there) (IsKept-self s _ _ _) }
    ]
  ]

  writes-Total :
      (r s : State) (n : ℕ) (fd : ℤ)
      → IsKept r s
      → Total s (times n 0 (λ _. emit kernel (Call.write fd ps))) (λ _ t. IsKept r t)
  unfolding emit
  writes-Total r s n fd h =
      Total-times (IsKept r) (λ _. emit kernel (Call.write fd ps))
        (λ i t k. record { at = IsKept-more r t t.fd t.hugetlbfd _ k }) n 0 s h

  open_regular-Total :
      (r s : State) (fpath : CString)
      → IsKept r s
      → Total s (open_regular kernel fpath) (λ _ t. IsKept r t)
  unfolding open_regular call emit
  open_regular-Total r s fpath h =
      elim (Bool-cases (is_minus_one (kernel s.trace (Call.access fpath)))) [
        | inl absent ↦
            let opened : List Call = Call.create_rw fpath ∷ Call.access fpath ∷ s.trace in
            let new : ℤ = kernel (Call.access fpath ∷ s.trace) (Call.create_rw fpath) in
            let t : State = record s { fd = new; trace = opened } in
            let all =
              Total-bind {f = λ _. emit kernel (Call.fsync new)} (λ _ u. IsKept r u)
                (writes-Total r t t.nr_p new (IsKept-more r s new s.hugetlbfd opened h))
                λ _ u k. record { at = IsKept-more r u u.fd u.hugetlbfd _ k } in
            record { at = rw (absent, files.creates) all.at }
        | inr there ↦ record { at = rw (there, files.opens) (IsKept-more r s _ s.hugetlbfd _ h) }
      ]

  create_regular_file-Total :
      (s : State) (base : CString)
      → length (s.workdir ++ (codes "/" ++ base)) < 256
      → Total s (create_regular_file kernel base) (λ _ t. IsKept s t)
  unfolding create_regular_file
  create_regular_file-Total s base room = record {
    at =
        (Total-bind
          {f = λ _. into_buffer 256 (s.workdir ++ (codes "/" ++ base)) >>= open_regular kernel}
          (λ _ t. IsKept s t) (create_workdir-Total s s.workdir)
          λ _ t h. record { at = rw (fits room) (open_regular-Total s t _ h).at }).at;
  }

  create_huge-Total :
      (r s : State) (fpath : CString)
      → IsKept r s
      → Total s (create_huge kernel fpath) (λ _ t. IsKept r t)
  unfolding create_huge checked_mmap call emit
  create_huge-Total r s fpath h = record {
    at = rw (files.creates, files.maps) (IsKept-more r s s.fd _ _ h);
  }

  create_hugetlbfs_file-Total :
      (s : State) (base : CString)
      → s.filebase ≡ some base
      → length (s.workdir ++ codes "/hugetlbfs") < 256
      → length ((s.workdir ++ codes "/hugetlbfs") ++ (codes "/" ++ base)) < 256
      → Total s (create_hugetlbfs_file kernel) (λ _ t. IsKept s t)
  unfolding create_hugetlbfs_file hugetlbfs_file
  create_hugetlbfs_file-Total s base e dir path =
      let dpath : CString = s.workdir ++ codes "/hugetlbfs" in
      let all =
        Total-bind {f = λ _. create_huge kernel (dpath ++ (codes "/" ++ base))} (λ _ t. IsKept s t)
          (create_workdir-Total s dpath) λ _ t h. create_huge-Total s t _ h in
      record {
        at =
            (Total-present s.filebase (hugetlbfs_file kernel) base e
              (record { at = rw (fits dir, fits path) all.at })).at;
      }

  regular_if_chosen-Total :
      (s : State) (base : Option CString) (bitmap : ℕ)
      → ((b : CString) → base ≡ some b → length (s.workdir ++ (codes "/" ++ b)) < 256)
      → Total s (regular_if_chosen kernel base bitmap) (λ _ t. IsKept s t)
  unfolding regular_if_chosen
  regular_if_chosen-Total s none bitmap h = record { at = IsKept-self s _ _ _ }
  regular_if_chosen-Total s (some base) bitmap h =
      Total-if (bit_and bitmap (be Backend.pagecache) == 0)
        (λ _. record { at = IsKept-self s _ _ _ })
        λ _. create_regular_file-Total s base (h base refl)

  pub create_files-Total :
      (s : State) → HasPaths s → Total s (create_files kernel) (λ _ t. IsKept s t)
  unfolding create_files huge_if_chosen
  create_files-Total s paths =
      let all =
        Total-bind {f = λ _. huge_if_chosen kernel s.backend_bitmap} (λ _ t. IsKept s t)
          (regular_if_chosen-Total s s.filebase s.backend_bitmap paths.regular)
          λ _ t h.
            Total-if (bit_and s.backend_bitmap (be Backend.hugetlb_file) == 0)
              (λ _. record { at = h })
              λ chosen.
                let (base, named) = paths.named chosen in
                Total-map
                  (create_hugetlbfs_file-Total t base (h.filebase ∙ named)
                    (rw (h.workdir) paths.dir) (rw (h.workdir) (paths.huge base named)))
                  λ _ u k. IsKept-trans h k in
      record { at = all.at }
