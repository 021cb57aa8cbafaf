-- ===== src/Gigantic/Areas.antt =====
-- The areas that the program has mapped: what it maps in a loop it also asks to unmap.
use mm_regression.Base.{
  ℕ, zero, suc, ◌≡◌, refl, ap, ◌∙◌, arith, List, [], ◌∷◌, Bool, true, false, ◌==◌, ◌&&◌, Bool-cases,
  Option-cases, not, inl, inr, if◌then◌else◌,
}
use mm_regression.Base.Int.{ℤ, pos, is_zero, is_neg, is_minus_one}
use mm_regression.Machine.{Call, Kernel, as_word, done, gets, ◌>>=◌, ◌>>◌}
use mm_regression.Machine.Total.{Total, Total-then, bind-keeps}
use mm_regression.Base.Text.{CString, codes, str_eq}
use mm_regression.Opc.{OpControl, opc_get_value}
use mm_regression.Gigantic.{
  GigaState, G, call, emit, keep, do_allocate_anon, do_allocate_file, map_testfile, mapping_loop,
  iterate_type, is_closed, report, do_iterate_mapping,
}

-- The first area with the address and the size is gone.
drop_area : (addr size : ℕ) → List (ℕ × ℕ) → List (ℕ × ℕ)
drop_area addr size [] = []
drop_area addr size ((a, n) ∷ areas) =
    let rest = drop_area addr size areas in if a == addr && n == size then areas else (a, n) ∷ rest

-- The addresses and sizes of what the calls made so far have mapped and not asked to unmap, the
-- latest first. (No call of the program moves a part of an area but `mremap`, which is left aside.)
pub areas : Kernel → List Call → List (ℕ × ℕ)
unfolding drop_area
areas kernel [] = []
areas kernel (Call.mmap addr size prot flags fd offset ∷ t) =
    let rest = areas kernel t in
    let r = kernel t (Call.mmap addr size prot flags fd offset) in
    if is_minus_one r then rest else (as_word r, size) ∷ rest
areas kernel (Call.munmap addr size ∷ t) = drop_area addr size (areas kernel t)
areas kernel (c ∷ t) = areas kernel t

-- An allocation that succeeds adds the one area that `ghp` points to, and one that fails adds none.
abbrev pub IsMapping : Kernel → G ℤ → Type 0
IsMapping kernel allocate =
    (s : GigaState)
    → Total s allocate (λ r t.
      (t.size ≡ s.size)
      × (areas kernel t.trace
          ≡ (if is_zero r then (t.ghp, t.size) ∷ areas kernel s.trace else areas kernel s.trace)))

drop_area_first :
    (addr size : ℕ) (rest : List (ℕ × ℕ)) → drop_area addr size ((addr, size) ∷ rest) ≡ rest
unfolding drop_area
drop_area_first addr size rest = ground arith

mapped_or_failed :
    (b : Bool) (failed mapped : List (ℕ × ℕ))
    → (if b then failed else mapped)
      ≡ (if is_zero (if b then pos 1 else pos 0) then mapped else failed)
mapped_or_failed true failed mapped = refl
mapped_or_failed false failed mapped = refl

module _ (kernel : Kernel) where
  pub do_allocate_anon-IsMapping : IsMapping kernel (do_allocate_anon kernel)
  unfolding do_allocate_anon keep call areas
  do_allocate_anon-IsMapping s = record {
    at = (refl, mapped_or_failed (is_minus_one (kernel s.trace _)) _ _);
  }

  map_testfile-IsMapping : IsMapping kernel (map_testfile kernel)
  unfolding map_testfile keep call areas
  map_testfile-IsMapping s = record {
    at = (refl, mapped_or_failed (is_minus_one (kernel s.trace _)) _ _);
  }

  pub do_allocate_file-IsMapping : IsMapping kernel (do_allocate_file kernel)
  unfolding do_allocate_file call emit areas
  do_allocate_file-IsMapping s =
      let testfile = codes "tmp/hugetlbfs/testfile" in
      let file = kernel s.trace (Call.create_rw testfile) in
      elim (Bool-cases (is_closed kernel s.ghfd)) [
        | inl closed ↦ elim (Bool-cases (is_minus_one file)) [
          | inl failed ↦ record { at = rw (closed, failed) (refl, refl) }
          | inr opened ↦ record {
            at =
                rw (closed, opened)
                  (map_testfile-IsMapping (record s {
                    ghfd = file;
                    trace = Call.pwrite file 8192 0 ∷ Call.create_rw testfile ∷ s.trace;
                  })).at;
          }
        ]
        | inr there ↦ record { at = rw there (map_testfile-IsMapping s).at }
      ]

  -- A round of the loop gives back what it maps.
  mapping_loop-areas :
      (rounds : ℕ) (allocate : G ℤ) (s : GigaState)
      → IsMapping kernel allocate
      → areas kernel (mapping_loop kernel rounds allocate s).1.trace ≡ areas kernel s.trace
  unfolding mapping_loop call emit areas
  mapping_loop-areas zero allocate s maps = refl
  mapping_loop-areas (suc rounds) allocate s maps =
      let asked : GigaState = record s { trace = Call.flag ∷ s.trace } in
      elim (Bool-cases (is_zero (kernel s.trace Call.flag))) [
        | inl cleared ↦ rw cleared refl
        | inr set ↦ rw set (
            Total-then (λ t. areas kernel t.trace ≡ areas kernel s.trace)
              (λ ret. if not (is_zero ret) then done else (do
                t ← gets (λ t. t)
                emit kernel (Call.memset t.ghp t.size)
                emit kernel (Call.munmap t.ghp t.size)
                mapping_loop kernel rounds allocate))
              (maps asked)
              λ r t h. elim (Bool-cases (is_zero r)) [
                | inl mapped ↦
                    let one : areas kernel t.trace ≡ (t.ghp, t.size) ∷ areas kernel s.trace =
                      h.1 ∙ rw mapped refl in
                    rw mapped (
                      mapping_loop-areas rounds allocate _ maps
                      ∙ (ap (drop_area t.ghp t.size) one ∙ drop_area_first t.ghp t.size _))
                | inr failed ↦ rw failed (h.1 ∙ rw failed refl)
              ])
      ]

  report-areas :
      (s : GigaState) (format : CString) (args : List ℕ)
      → areas kernel (report kernel format args s).1.trace ≡ areas kernel s.trace
  unfolding report call emit areas
  report-areas s format args = elim (Bool-cases s.testpipe) [
    | inl piped ↦ elim (Bool-cases (is_neg (kernel s.trace (Call.message format args)))) [
      | inl failed ↦ rw (piped, failed) refl
      | inr written ↦ rw (piped, written) refl
    ]
    | inr no_pipe ↦ rw no_pipe refl
  ]

  if_areas :
      (b : Bool) (m n : G (Unit {0})) (s : GigaState)
      → areas kernel (m s).1.trace ≡ areas kernel s.trace
      → areas kernel (n s).1.trace ≡ areas kernel s.trace
      → areas kernel ((if b then m else n) s).1.trace ≡ areas kernel s.trace
  if_areas true m n s h k = h
  if_areas false m n s h k = k

  iterate_type-areas :
      (rounds : ℕ) (type : CString) (s : GigaState)
      → areas kernel (iterate_type kernel rounds type s).1.trace ≡ areas kernel s.trace
  unfolding iterate_type
  iterate_type-areas rounds type s =
      if_areas (str_eq type (codes "anon")) _ _ s
        (mapping_loop-areas rounds (do_allocate_anon kernel) s do_allocate_anon-IsMapping)
        (if_areas (str_eq type (codes "file")) _ _ s
          (mapping_loop-areas rounds (do_allocate_file kernel) s do_allocate_file-IsMapping)
          (if_areas (str_eq type (codes "shmem")) _ _ s (report-areas s _ [])
            (report-areas s _ [])))

-- iterate_mapping asks to unmap each area that it maps, with its address and its size, and no other
-- area, for every type and every number of rounds, also where it has not ended yet or an allocation
-- in it fails. (Whether the kernel grants an unmapping is not looked at.)
pub do_iterate_mapping-areas :
    (kernel : Kernel) (rounds : ℕ) (opc : OpControl) (s : GigaState)
    → areas kernel (do_iterate_mapping kernel rounds opc s).1.trace ≡ areas kernel s.trace
unfolding do_iterate_mapping call areas
do_iterate_mapping-areas kernel rounds opc s =
    let P : GigaState → Type 0 = λ t. areas kernel t.trace ≡ areas kernel s.trace in
    elim (Option-cases (opc_get_value opc (codes "type"))) [
      | inl missing ↦ rw missing refl
      | inr (type, found) ↦ rw found (
          bind-keeps P s (iterate_type kernel rounds type) (λ _. call kernel Call.no_return)
            (iterate_type-areas kernel rounds type s) (λ _ t h. h))
    ]
