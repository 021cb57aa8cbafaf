-- ===== src/Mincore/Safe.antt =====
-- The whole program after its options: it touches mapped memory only, and has no undefined
-- behaviour.
use mm_regression.Base.{
  false, ℕ, ◌*◌, ◌/◌, ◌≤◌, ◌≡◌, ◌≢◌, refl, sym, ◌∙◌, arith, List, [], Option, none, some, true,
  length, tabulate, if◌then◌else◌, length-tabulate,
}
use mathlib.Core.Path.{subst}
use mm_regression.Base.Text.{CString, codes}
use mm_regression.Abi.{ps}
use mm_regression.Wait.Quiet.{pprintf-IsQuiet, pprintf_wait-IsQuiet}
use mm_regression.Machine.{Call, Kernel, State, Result, ok, exit, fault, running, pure, mul64}
use mm_regression.Machine.Touched.{
  IsSafe, Grows-refl, Grows-trans, IsQuiet-emit, Outcome, Fine, Fine-bind, Fine-quiet, Fine-map,
}
use mm_regression.Mincore.Buffer.Text.{IsText}
use mm_regression.Mincore.{check_and_show, show_file, show_small, show_all, run, has_percent}
use mm_regression.Mincore.Locals.{Options, Areas, chosen}
use mm_regression.Mincore.Stages.{IsSized, Covers, Fine-pure}
use mm_regression.Mincore.Ready.{IsReady, IsReady-Grows, Covers-Grows, CoversFile, map_all-fine}
use mm_regression.Mincore.Fills.{busy_loop-fine}
use mm_regression.Mincore.Shows.{Shows, check_and_show-Shows, skip}

module _ (kernel : Kernel) (residency : List Call → ℕ → ℕ) (junk : ℕ → ℕ) (o : Options)
    (sized : IsSized o) where
  -- The vector has a byte for each page of four times the size.
  abbrev Wide : List ℕ → Type 0
  Wide vec = length vec ≡ 16 * sized.fours

  show_file-Shows :
      (s : State) (file : Option CString) (a : Areas) (vec : List ℕ)
      → Wide vec
      → IsSafe kernel s.trace
      → CoversFile kernel o file a s.trace
      → Shows kernel residency junk s vec (show_file kernel residency junk file o a vec)
  unfolding show_file has_percent
  show_file-Shows s none a vec wide safe c = Fine-pure vec _ safe (refl, Grows-refl s.trace)
  show_file-Shows s (some file) a vec wide safe c =
      let filled = sized.size_eq in
      let few = sized.few_pages in
      let whole : 4 * o.memsize ≡ mul64 o.memsize 4 = omega arith in
      check_and_show-Shows kernel residency junk s (codes "mincore5") a.pfile (mul64 o.memsize 4)
        vec safe (subst (λ n. Covers kernel a.pfile n s.trace) whole c) (omega arith) refl refl
        (omega arith) (omega arith)

  show_small-Shows :
      (s : State) (a : Areas) (vec : List ℕ)
      → Wide vec
      → IsSafe kernel s.trace
      → Covers kernel a.psmall1 (2 * ps) s.trace × Covers kernel a.psmall2 (2 * ps) s.trace
      → Shows kernel residency junk s vec (show_small kernel residency junk a vec)
  unfolding show_small has_percent
  show_small-Shows s a vec wide safe c =
      let positive = sized.some_pages in
      Fine-bind _ _
        (check_and_show-Shows kernel residency junk s (codes "mincore6") a.psmall1 (2 * ps) vec safe
          c.0 (omega arith) refl refl (omega arith) (omega arith))
        λ vec' t safe_t h.
          Fine-map
            (check_and_show-Shows kernel residency junk t (codes "mincore7") a.psmall2 (2 * ps) vec'
              safe_t (Covers-Grows h.1 c.1) (omega arith) refl refl (omega (arith, h.0))
              (omega arith))
            λ vec'' u k. (k.0 ∙ h.0, Grows-trans h.1 k.1)

  show_part :
      (s : State) (k : ℕ) (tag : CString) (area : Option ℕ) (size : ℕ) (vec : List ℕ)
      → Wide vec
      → IsSafe kernel s.trace
      → (chosen o k ≡ true → Covers kernel area size s.trace)
      → IsText tag
      → length tag ≡ 8
      → has_percent tag ≡ false
      → size ≤ o.memsize
      → Shows kernel residency junk s vec
          (if chosen o k then check_and_show kernel residency junk tag area size vec else pure vec)
  show_part s k tag area size vec wide safe c text eight plain small =
      let filled = sized.size_eq in
      let few = sized.few_pages in
      skip kernel residency junk s vec (chosen o k) _ safe λ on.
        check_and_show-Shows kernel residency junk s tag area size vec safe (c on) text eight plain
          (omega arith) (omega arith)

  show_all-Shows :
      (s : State) (a : Areas) (vec : List ℕ)
      → Wide vec
      → IsSafe kernel s.trace
      → IsReady kernel o a s.trace
      → Shows kernel residency junk s vec (show_all kernel residency junk o a vec)
  unfolding show_all has_percent
  show_all-Shows s a vec wide safe r =
      let size = o.memsize in
      Fine-bind _ _
        (show_part s 0 (codes "mincore1") a.pmem size vec wide safe r.pmem (omega arith) refl refl
          (omega arith))
        λ v1 t1 safe1 h1.
          let r1 = IsReady-Grows h1.1 r in
          let w1 : Wide v1 = h1.0 ∙ wide in
          Fine-bind _ _
            (show_part t1 1 (codes "mincore2") a.phugetlb size v1 w1 safe1 r1.phugetlb (omega arith)
              refl refl (omega arith))
            λ v2 t2 safe2 h2.
              let r2 = IsReady-Grows h2.1 r1 in
              let w2 : Wide v2 = h2.0 ∙ w1 in
              Fine-bind _ _
                (show_part t2 2 (codes "mincore3") a.pthp size v2 w2 safe2 r2.pthp (omega arith)
                  refl refl (omega arith))
                λ v3 t3 safe3 h3.
                  let r3 = IsReady-Grows h3.1 r2 in
                  let w3 : Wide v3 = h3.0 ∙ w2 in
                  Fine-bind _ _
                    (show_part t3 3 (codes "mincore4") a.pmem_unaligned (size / 2) v3 w3 safe3
                      r3.unaligned (omega arith) refl refl (omega arith))
                    λ v4 t4 safe4 h4.
                      let r4 = IsReady-Grows h4.1 r3 in
                      let w4 : Wide v4 = h4.0 ∙ w3 in
                      Fine-bind _ _
                        (skip kernel residency junk t4 v4 (chosen o 4) _ safe4
                          (λ on. show_file-Shows t4 o.file a v4 w4 safe4 (r4.file on)))
                        λ v5 t5 safe5 h5.
                          let r5 = IsReady-Grows h5.1 r4 in
                          let w5 : Wide v5 = h5.0 ∙ w4 in
                          let g =
                            Grows-trans h1.1
                              (Grows-trans h2.1 (Grows-trans h3.1 (Grows-trans h4.1 h5.1))) in
                          Fine-map
                            (skip kernel residency junk t5 v5 (chosen o 5) _ safe5
                              (λ on. show_small-Shows t5 a v5 w5 safe5 (r5.small on)))
                            λ v6 t6 h6. (h6.0 ∙ (w5 ∙ sym wide), Grows-trans g h6.1)

ne_fault :
    {A : Type 0} (Q : A → State → Type 0) (r : Result A) (t : State) → Outcome Q r t → r ≢ fault
ne_fault Q (ok a) t h e = cc
ne_fault Q exit t h e = cc
ne_fault Q fault t h e = h
ne_fault Q running t h e = cc

module _ (kernel : Kernel) (rounds : ℕ) (pagemap kpageflags : (index count : ℕ) → List ℕ)
    (residency : List Call → ℕ → ℕ) (junk : ℕ → ℕ) (o : Options) (sized : IsSized o) (s : State)
    (safe : IsSafe kernel s.trace) where
  run-fine : Fine kernel s (run kernel rounds pagemap kpageflags residency junk o) (λ _ _. Unit {0})
  unfolding run
  run-fine =
      let filled = sized.size_eq in
      let few = sized.few_pages in
      let vec : List ℕ = tabulate (mul64 o.memsize 4 / ps) 0 junk in
      let wide : length vec ≡ 16 * sized.fours =
        omega (arith, length-tabulate (mul64 o.memsize 4 / ps) 0 junk) in
      Fine-bind _ _ (map_all-fine kernel rounds pagemap kpageflags o sized s safe) λ a t1 safe1 r1.
        Fine-bind _ _ (Fine-quiet (IsQuiet-emit Call.signal_sigusr1 tt) safe1) λ _ t2 safe2 g2.
          Fine-bind _ _
            (show_all-Shows kernel residency junk o sized t2 a vec wide safe2 (IsReady-Grows g2 r1))
            λ vec' t3 safe3 h3.
              Fine-bind _ _
                (Fine-quiet (pprintf-IsQuiet kernel (codes "entering busy loop\n") []) safe3)
                λ _ t4 safe4 g4.
                  let r4 = IsReady-Grows (Grows-trans g2 (Grows-trans h3.1 g4)) r1 in
                  Fine-bind _ _ (busy_loop-fine kernel o sized rounds t4 a safe4 r4)
                    λ _ t5 safe5 g5.
                      Fine-map
                        (Fine-quiet (pprintf_wait-IsQuiet kernel rounds (codes "mincore exit\n") [])
                          safe5)
                        (λ _ _ _. tt)

  -- Where the size is a number of times four pages, at most 255 times, test_mincore has no undefined
  -- behaviour after its options, for every choice of areas and whatever its calls return: no area is
  -- used that was not set up, and no buffer overflows. What it writes with memset, and what it asks
  -- mincore about, is mapped at that time, the part of the area that loses its ends included.
  pub run-IsSafe :
      IsSafe kernel (run kernel rounds pagemap kpageflags residency junk o s).1.trace
      × ((run kernel rounds pagemap kpageflags residency junk o s).0 ≢ fault)
  run-IsSafe = (run-fine.safe, ne_fault (λ _ _. Unit {0}) _ _ run-fine.outcome)
