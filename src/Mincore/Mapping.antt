-- ===== src/Mincore/Mapping.antt =====
-- Each step of the first part of `main` maps its area.
use mm_regression.Base.{
  ℕ, ◌+◌, ◌-◌, ◌*◌, ◌/◌, ◌^◌, ◌≤◌, ◌≡◌, refl, arith, List, Option, some, true, not, ◌==◌,
}
use mm_regression.Abi
use mm_regression.Abi.{
  ps, hps, addr_input, protflag, map_shared, map_private_anonymous, map_hugetlb,
}
use mm_regression.Machine.{Call, Kernel, State, add64, exit}
use mm_regression.Machine.Touched.{
  Has, IsSafe, Grows, Grows-refl, Grows-trans, IsQuiet-emit, IsQuiet-stop, IsQuiet-done,
  IsQuiet-bind, IsQuiet-if, IsQuiet-times, Fine, Fine-bind, Fine-quiet, Fine-if,
}
use mm_regression.PageInfo.Quiet.{check_kpflags-IsQuiet}
use mm_regression.Mincore.{map_pmem, map_hugepages, map_thp}
use mm_regression.Mincore.Locals.{Options, Areas, chosen}
use mm_regression.Mincore.Stages.{
  IsSized, Placed, Stage, Area, Stage-same, Fine-pure, Fine-memset, Fine-mmap, Has-grows, Has-part,
}

module _ {kernel : Kernel} {n : ℕ} {a b : Areas} {t : State} (few : n ≤ 8) (placed : Placed n a)
    (step : ℕ) (fits : step ≤ 2 ^ 25) (next : b.address ≡ add64 a.address step) where
  pub advance : (s : State) → Grows kernel s.trace t.trace → Stage kernel a s b t
  advance s g = record {
    up = omega (arith, next, placed.above, placed.below);
    near = omega (arith, next, placed.above, placed.below);
    keeps = λ p m h k. Has-grows g k;
  }

  pub Area-at :
      (p m : ℕ) → p ≡ a.address → m ≤ step → Has kernel p m t.trace → Area kernel (some p) m b t
  Area-at p m e h k = record {
    addr = p;
    known = refl;
    below = omega (arith, next, placed.above, placed.below, e);
    has = k;
  }

module _ (kernel : Kernel) (o : Options) (sized : IsSized o) where
  -- What a step from `a` in `s` brings about, `b` being `a` with one more area.
  abbrev pub Mapped :
      (a : Areas) (s : State) (k : ℕ) (size : ℕ) (pointer : Areas → Option ℕ)
      → Areas
      → State
      → Type 0
  Mapped a s k size pointer b t =
      Stage kernel a s b t × (chosen o k ≡ true → Area kernel (pointer b) size b t)

  module _ (n : ℕ) (few : n ≤ 8) (a : Areas) (s : State) (placed : Placed n a)
      (safe : IsSafe kernel s.trace) where
    big : o.memsize ≤ 2 ^ 23
    big = omega (arith, sized.size_eq, sized.few_pages)

    pub map_pmem-fine : Fine kernel s (map_pmem kernel o a) (λ b t.
        Mapped a s 0 o.memsize (λ c. c.pmem) b t
        × (b ≡ record a { pmem = b.pmem; address = b.address }))
    unfolding map_pmem
    map_pmem-fine =
        let size = o.memsize in
        Fine-if (not (chosen o 0))
          (λ off.
            Fine-pure a _ safe ((Stage-same a (Grows-refl s.trace), λ on. ground arith), refl))
          λ on. Fine-bind _ _ (Fine-mmap a.address size _ _ _ _ placed.above safe) λ p t safe_t h.
            let advised = IsQuiet-emit (Call.madvise p size Abi.Madv.nohugepage) tt in
            Fine-bind _ _ (Fine-quiet advised safe_t) λ _ u safe_u g.
              let has = Has-grows g h.2 in
              let half = Has-part p size p (size / 2) (omega arith) (omega arith) has in
              Fine-bind _ _ (Fine-memset p (size / 2) safe_u half) λ _ v safe_v g'.
                let grows = Grows-trans h.1 (Grows-trans g g') in
                Fine-pure _ _ safe_v (
                  (
                    advance few placed size (omega (arith, big)) refl s grows,
                    λ _.
                        Area-at few placed size (omega (arith, big)) refl p size h.0 (omega arith)
                          (Has-grows g' has),
                  ),
                  refl,
                )

    pub map_hugepages-fine : Fine kernel s (map_hugepages kernel o a) (λ b t.
        Mapped a s 1 o.memsize (λ c. c.phugetlb) b t
        × (b ≡ record a { phugetlb = b.phugetlb; address = b.address }))
    unfolding map_hugepages
    map_hugepages-fine =
        let size = o.memsize in
        let filled = sized.size_eq in
        let positive = sized.some_pages in
        Fine-if (not (chosen o 1))
          (λ off.
            Fine-pure a _ safe ((Stage-same a (Grows-refl s.trace), λ on. ground arith), refl))
          λ on. Fine-bind _ _ (Fine-mmap a.address size _ _ _ _ placed.above safe) λ p t safe_t h.
            let one = Has-part p size p 1 (omega arith) (omega arith) h.2 in
            Fine-bind _ _ (Fine-memset p 1 safe_t one) λ _ v safe_v g. Fine-pure _ _ safe_v (
              (
                advance few placed size (omega (arith, big)) refl s (Grows-trans h.1 g),
                λ _.
                    Area-at few placed size (omega (arith, big)) refl p size h.0 (omega arith)
                      (Has-grows g h.2),
              ),
              refl,
            )

    pub map_thp-fine :
        (pagemap kpageflags : (index count : ℕ) → List ℕ)
        → Fine kernel s (map_thp kernel pagemap kpageflags o a) (λ b t.
          Mapped a s 2 o.memsize (λ c. c.pthp) b t
          × (b ≡ record a { pthp = b.pthp; address = b.address }))
    unfolding map_thp
    map_thp-fine pagemap kpageflags =
        let size = o.memsize in
        let filled = sized.size_eq in
        let positive = sized.some_pages in
        Fine-if (not (chosen o 2))
          (λ off.
            Fine-pure a _ safe ((Stage-same a (Grows-refl s.trace), λ on. ground arith), refl))
          λ on. Fine-bind _ _ (Fine-mmap a.address size _ _ _ _ placed.above safe) λ p t safe_t h.
            let one = Has-part p size p 1 (omega arith) (omega arith) h.2 in
            Fine-bind _ _ (Fine-memset p 1 safe_t one) λ _ u safe_u g.
              Fine-bind _ _
                (Fine-quiet
                  (IsQuiet-times ((size + hps - 1) / hps) 0 _ λ i.
                    IsQuiet-bind _ _
                      (check_kpflags-IsQuiet kernel pagemap kpageflags (add64 p (i * hps)) 22
                        (omega arith))
                      λ thp. IsQuiet-if (thp == 0) (IsQuiet-stop exit (λ e. cc)) IsQuiet-done)
                  safe_u)
                λ _ v safe_v g'.
                  let grows = Grows-trans h.1 (Grows-trans g g') in
                  Fine-pure _ _ safe_v (
                    (
                      advance few placed size (omega (arith, big)) refl s grows,
                      λ _.
                          Area-at few placed size (omega (arith, big)) refl p size h.0 (omega arith)
                            (Has-grows g' (Has-grows g h.2)),
                    ),
                    refl,
                  )
