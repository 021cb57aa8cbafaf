-- ===== src/Mincore/Holes.antt =====
-- The area that loses its first and last quarter, the file with a hole, and the two small areas.
use mm_regression.Base.{
  ℕ, ◌+◌, ◌*◌, ◌/◌, ◌^◌, ◌≤◌, ◌<◌, ◌≡◌, inl, inr, refl, arith, List, Option, none, some, true, not,
}
use mm_regression.Base.Text.{CString}
use mm_regression.Abi
use mm_regression.Abi.{
  ps, hps, addr_input, protflag, map_shared, map_private_anonymous, map_hugetlb,
}
use mm_regression.Chunk.Quiet.{checked_open-IsQuiet}
use mm_regression.Machine.{Call, Kernel, State, add64, mul64}
use mm_regression.Machine.Touched.{
  Has, IsSafe, IsSpared, Grows, Grows-refl, Grows-trans, IsQuiet-emit, Fine, Fine-bind, Fine-quiet,
  Fine-map, Fine-if,
}
use mm_regression.Mincore.{map_unaligned, map_opened, map_hole_file, map_small}
use mm_regression.Mincore.Locals.{Options, Areas, chosen, before_end}
use mm_regression.Mincore.Stages.{
  IsSized, Placed, Stage, Unmaps, Covers, Area, Stage-same, Fine-pure, Fine-memset, Fine-munmap,
  Fine-mmap, Has-grows, Has-part,
}
use mm_regression.Mincore.Mapping.{Mapped, advance, Area-at}

-- What is mapped, and is spared by a munmap, is mapped after it.
Has-spared :
    {kernel : Kernel} {t u : List Call} {a n : ℕ} (p m : ℕ)
    → Unmaps kernel a n t u
    → ((x : ℕ) → p ≤ x → x < p + m → IsSpared a n x)
    → Has kernel p m t
    → Has kernel p m u
Has-spared p m k spared h = record { at = λ x lo hi. k.keeps x (spared x lo hi) (h.at x lo hi) }

-- The file, if one is given, is mapped to four times the size.
abbrev pub MappedFile : Kernel → Options → (file : Option CString) → Areas → State → Type 0
MappedFile kernel o none b t = Unit
MappedFile kernel o (some file) b t = Area kernel b.pfile (4 * o.memsize) b t

module _ (kernel : Kernel) (o : Options) (sized : IsSized o) (n : ℕ) (few : n ≤ 8) (a : Areas)
    (s : State) (placed : Placed n a) (safe : IsSafe kernel s.trace) where
  big : o.memsize ≤ 2 ^ 23
  big = omega (arith, sized.size_eq, sized.few_pages)

  -- The middle half of the area stays.
  pub map_unaligned-fine : Fine kernel s (map_unaligned kernel o a) (λ b t.
      Mapped kernel o sized a s 3 (o.memsize / 2) (λ c. c.pmem_unaligned) b t
      × (b ≡ record a { pmem_unaligned = b.pmem_unaligned; address = b.address }))
  unfolding map_unaligned
  map_unaligned-fine =
      let size = o.memsize in
      let filled = sized.size_eq in
      let few_fours = sized.few_pages in
      let low = placed.above in
      let high = placed.below in
      Fine-if (not (chosen o 3))
        (λ off. Fine-pure a _ safe ((Stage-same a (Grows-refl s.trace), λ on. ground arith), refl))
        λ on. Fine-bind _ _ (Fine-mmap a.address size _ _ _ _ placed.above safe) λ p t safe_t h.
          let e = h.0 in
          let advised = IsQuiet-emit (Call.madvise p size Abi.Madv.nohugepage) tt in
          Fine-bind _ _ (Fine-quiet advised safe_t) λ _ u safe_u g.
            Fine-bind _ _ (Fine-munmap p (size / 4) safe_u) λ _ v safe_v k.
              Fine-bind _ _ (Fine-munmap (add64 p (mul64 size 3 / 4)) (size / 2) safe_v)
                λ _ w safe_w k'.
                  let q = add64 p (size / 4) in
                  let here : q ≡ p + size / 4 = omega arith in
                  let middle : Has kernel q (size / 2) w.trace =
                    Has-spared q (size / 2) k' (λ x lo hi. inr (inl (omega arith)))
                      (Has-spared q (size / 2) k (λ x lo hi. inr (inr (omega arith)))
                        (Has-part p size q (size / 2) (omega arith) (omega arith)
                          (Has-grows g h.2))) in
                  Fine-bind _ _
                    (Fine-memset q (size / 2 / 2) safe_w
                      (Has-part q (size / 2) q (size / 2 / 2) (omega arith) (omega arith) middle))
                    λ _ z safe_z g'. Fine-pure _ _ safe_z (
                      (
                        record {
                          up = omega arith;
                          near = omega arith;
                          keeps = λ p' m' below has. Has-grows g' (
                              Has-spared p' m' k' (λ x lo hi. inr (inl (omega arith)))
                                (Has-spared p' m' k (λ x lo hi. inr (inl (omega arith)))
                                  (Has-grows g (Has-grows h.1 has))));
                        },
                        λ _. record {
                          addr = q;
                          known = refl;
                          below = omega arith;
                          has = Has-grows g' middle;
                        },
                      ),
                      refl,
                    )

  pub map_opened-fine :
      (file : Option CString)
      → Fine kernel s (map_opened kernel file o a) (λ b t.
        Stage kernel a s b t
        × MappedFile kernel o file b t
        × (b ≡ record a { pfile = b.pfile; address = b.address }))
  unfolding map_opened before_end
  map_opened-fine none = Fine-pure a _ safe (Stage-same a (Grows-refl s.trace), tt, refl)
  map_opened-fine (some file) =
      let size = o.memsize in
      let filled = sized.size_eq in
      let positive = sized.some_pages in
      let whole : mul64 size 4 ≡ 4 * size = omega (arith, big) in
      let low = placed.above in
      let high = placed.below in
      Fine-bind _ _ (Fine-quiet (checked_open-IsQuiet kernel file) safe) λ fd r safe_r g0.
        Fine-bind _ _ (Fine-mmap a.address (mul64 size 4) _ _ fd _ placed.above safe_r)
          λ p t safe_t h.
            let e = h.0 in
            let limit = big in
            let first = Has-part p (mul64 size 4) p ps (omega arith) (omega arith) h.2 in
            Fine-bind _ _ (Fine-memset p ps safe_t first) λ _ u safe_u g.
              let q = before_end o p 2 in
              let last =
                Has-part p (mul64 size 4) q ps (omega arith) (omega arith) (Has-grows g h.2) in
              Fine-bind _ _ (Fine-memset q ps safe_u last) λ _ v safe_v g'.
                let grows = Grows-trans g0 (Grows-trans h.1 (Grows-trans g g')) in
                Fine-pure _ _ safe_v (
                  advance few placed (mul64 size 4) (omega (arith, big)) refl s grows,
                  Area-at few placed (mul64 size 4) (omega (arith, big)) refl p (4 * size) h.0
                      (omega arith)
                      (Has-part p (mul64 size 4) p (4 * size) (omega arith) (omega arith)
                        (Has-grows g' (Has-grows g h.2))),
                  refl,
                )

  pub map_hole_file-fine : Fine kernel s (map_hole_file kernel o a) (λ b t.
      Stage kernel a s b t
      × (chosen o 4 ≡ true → MappedFile kernel o o.file b t)
      × (b ≡ record a { pfile = b.pfile; address = b.address }))
  unfolding map_hole_file
  map_hole_file-fine =
      Fine-if (not (chosen o 4))
        (λ off. Fine-pure a _ safe (Stage-same a (Grows-refl s.trace), λ on. ground arith, refl))
        (λ on. Fine-map (map_opened-fine o.file) (λ b t h. (h.0, λ _. h.1, h.2)))

  pub map_small-fine : Fine kernel s (map_small kernel o a) (λ b t.
      Grows kernel s.trace t.trace
      × (chosen o 5 ≡ true
          → Covers kernel b.psmall1 (2 * ps) t.trace × Covers kernel b.psmall2 (2 * ps) t.trace)
      × (b ≡ record a { psmall1 = b.psmall1; psmall2 = b.psmall2; address = b.address }))
  unfolding map_small
  map_small-fine =
      let above = placed.above in
      let high = placed.below in
      Fine-if (not (chosen o 5))
        (λ off. Fine-pure a _ safe (Grows-refl s.trace, λ on. ground arith, refl))
        λ on. Fine-bind _ _ (Fine-mmap a.address (2 * ps) _ _ _ _ placed.above safe) λ p t safe_t h.
          Fine-bind _ _ (Fine-mmap (add64 a.address (4 * ps)) (2 * ps) _ _ _ _ (omega arith) safe_t)
            λ q u safe_u k.
              let has = Has-grows k.1 h.2 in
              Fine-bind _ _
                (Fine-memset p ps safe_u (Has-part p (2 * ps) p ps (omega arith) (omega arith) has))
                λ _ v safe_v g.
                  let has' = Has-grows g k.2 in
                  Fine-bind _ _
                    (Fine-memset q ps safe_v
                      (Has-part q (2 * ps) q ps (omega arith) (omega arith) has'))
                    λ _ w safe_w g'. Fine-pure _ _ safe_w (
                      Grows-trans h.1 (Grows-trans k.1 (Grows-trans g g')),
                      λ _. (
                        record {
                          addr = p;
                          known = refl;
                          has = Has-grows g' (Has-grows g has);
                          below = omega (arith, h.0);
                        },
                        record {
                          addr = q;
                          known = refl;
                          has = Has-grows g' has';
                          below = omega (arith, k.0);
                        },
                      ),
                      refl,
                    )
