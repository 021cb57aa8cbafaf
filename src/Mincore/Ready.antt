-- ===== src/Mincore/Ready.antt =====
-- The areas that are there when the program shows and writes them.
use mm_regression.Base.{
  ℕ, ◌*◌, ◌/◌, ◌^◌, ◌<◌, ◌≡◌, ap, ◌∙◌, arith, List, [], Option, none, some, true,
}
use mm_regression.Base.Text.{CString, codes}
use mm_regression.Abi.{ps}
use mm_regression.Wait.Quiet.{pprintf_wait-IsQuiet}
use mm_regression.Machine.{Call, Kernel, State}
use mm_regression.Machine.Touched.{IsSafe, Grows, Fine, Fine-bind, Fine-quiet, Fine-map}
use mm_regression.Mincore.{map_all}
use mm_regression.Mincore.Locals.{Options, Areas, chosen, no_areas}
use mm_regression.Mincore.Stages.{
  IsSized, Placed, Stage, Area, Covers, Stage-same, Placed-Stage, carry, Has-grows,
}
use mm_regression.Mincore.Mapping.{map_pmem-fine, map_hugepages-fine, map_thp-fine}
use mm_regression.Mincore.Holes.{MappedFile, map_unaligned-fine, map_hole_file-fine, map_small-fine}

-- The file is there, if one is given.
abbrev pub CoversFile : Kernel → Options → (file : Option CString) → Areas → List Call → Type 0
CoversFile kernel o none a t = Unit
CoversFile kernel o (some file) a t = Covers kernel a.pfile (4 * o.memsize) t

-- Each chosen area is there.
pub record IsReady (kernel : Kernel) (o : Options) (a : Areas) (t : List Call) : Type 0 where
  pub pmem : chosen o 0 ≡ true → Covers kernel a.pmem o.memsize t
  pub phugetlb : chosen o 1 ≡ true → Covers kernel a.phugetlb o.memsize t
  pub pthp : chosen o 2 ≡ true → Covers kernel a.pthp o.memsize t
  pub unaligned : chosen o 3 ≡ true → Covers kernel a.pmem_unaligned (o.memsize / 2) t
  pub file : chosen o 4 ≡ true → CoversFile kernel o o.file a t
  pub small :
      chosen o 5 ≡ true → Covers kernel a.psmall1 (2 * ps) t × Covers kernel a.psmall2 (2 * ps) t

module _ {kernel : Kernel} where
  Covers-Area :
      {a : Areas} {s : State} {p q : Option ℕ} {n : ℕ} {u : List Call}
      → p ≡ q
      → a.address < 2 ^ 64
      → Grows kernel s.trace u
      → Area kernel q n a s
      → Covers kernel p n u
  Covers-Area e h g m = record {
    addr = m.addr;
    known = e ∙ m.known;
    has = Has-grows g m.has;
    below = omega (arith, m.below);
  }

  Covers-file :
      (o : Options) (file : Option CString) (a b : Areas) (s : State) (u : List Call)
      → b.pfile ≡ a.pfile
      → a.address < 2 ^ 64
      → Grows kernel s.trace u
      → MappedFile kernel o file a s
      → CoversFile kernel o file b u
  Covers-file o none a b s u e h g m = tt
  Covers-file o (some file) a b s u e h g m = Covers-Area e h g m

  pub Covers-Grows :
      {t u : List Call} {p : Option ℕ} {n : ℕ}
      → Grows kernel t u
      → Covers kernel p n t
      → Covers kernel p n u
  Covers-Grows g c = record {
    addr = c.addr;
    known = c.known;
    has = Has-grows g c.has;
    below = c.below;
  }

  CoversFile-Grows :
      (o : Options) (file : Option CString) (a : Areas) (t u : List Call)
      → Grows kernel t u
      → CoversFile kernel o file a t
      → CoversFile kernel o file a u
  CoversFile-Grows o none a t u g c = tt
  CoversFile-Grows o (some file) a t u g c = Covers-Grows g c

  pub IsReady-Grows :
      {o : Options} {a : Areas} {t u : List Call}
      → Grows kernel t u
      → IsReady kernel o a t
      → IsReady kernel o a u
  IsReady-Grows {o} {a} {t} {u} g r = record {
    pmem = λ on. Covers-Grows g (r.pmem on);
    phugetlb = λ on. Covers-Grows g (r.phugetlb on);
    pthp = λ on. Covers-Grows g (r.pthp on);
    unaligned = λ on. Covers-Grows g (r.unaligned on);
    file = λ on. CoversFile-Grows o o.file a t u g (r.file on);
    small = λ on. (Covers-Grows g (r.small on).0, Covers-Grows g (r.small on).1);
  }

-- The steps after an area was mapped neither lose it nor forget its address.
module _ {kernel : Kernel} (o : Options) {a1 a2 a3 a4 a5 a6 : Areas} {t1 t2 w t3 t4 t5 : State}
    {u : List Call} (m0 : chosen o 0 ≡ true → Area kernel a1.pmem o.memsize a1 t1)
    (m1 : chosen o 1 ≡ true → Area kernel a2.phugetlb o.memsize a2 t2)
    (m2 : chosen o 2 ≡ true → Area kernel a3.pthp o.memsize a3 t3)
    (m3 : chosen o 3 ≡ true → Area kernel a4.pmem_unaligned (o.memsize / 2) a4 t4)
    (m4 : chosen o 4 ≡ true → MappedFile kernel o o.file a5 t5)
    (m5 : chosen o 5 ≡ true
      → Covers kernel a6.psmall1 (2 * ps) u × Covers kernel a6.psmall2 (2 * ps) u)
    (s2 : Stage kernel a1 t1 a2 t2) (waited : Stage kernel a2 t2 a2 w)
    (s3 : Stage kernel a2 w a3 t3) (s4 : Stage kernel a3 t3 a4 t4) (s5 : Stage kernel a4 t4 a5 t5)
    (s6 : Grows kernel t5.trace u) (low : a5.address < 2 ^ 64)
    (e2 : a2 ≡ record a1 { phugetlb = a2.phugetlb; address = a2.address })
    (e3 : a3 ≡ record a2 { pthp = a3.pthp; address = a3.address })
    (e4 : a4 ≡ record a3 { pmem_unaligned = a4.pmem_unaligned; address = a4.address })
    (e5 : a5 ≡ record a4 { pfile = a5.pfile; address = a5.address })
    (e6 : a6 ≡ record a5 { psmall1 = a6.psmall1; psmall2 = a6.psmall2; address = a6.address }) where
  IsReady-at : IsReady kernel o a6 u
  IsReady-at = record {
    pmem = λ on.
        Covers-Area
          (ap (λ c. c.pmem) e6
            ∙ ap (λ c. c.pmem) e5
            ∙ ap (λ c. c.pmem) e4
            ∙ ap (λ c. c.pmem) e3
            ∙ ap (λ c. c.pmem) e2)
          low s6 (carry s5 (carry s4 (carry s3 (carry waited (carry s2 (m0 on))))));
    phugetlb = λ on.
        Covers-Area
          (ap (λ c. c.phugetlb) e6
            ∙ ap (λ c. c.phugetlb) e5
            ∙ ap (λ c. c.phugetlb) e4
            ∙ ap (λ c. c.phugetlb) e3)
          low s6 (carry s5 (carry s4 (carry s3 (carry waited (m1 on)))));
    pthp = λ on.
        Covers-Area (ap (λ c. c.pthp) e6 ∙ ap (λ c. c.pthp) e5 ∙ ap (λ c. c.pthp) e4) low s6
          (carry s5 (carry s4 (m2 on)));
    unaligned = λ on.
        Covers-Area (ap (λ c. c.pmem_unaligned) e6 ∙ ap (λ c. c.pmem_unaligned) e5) low s6
          (carry s5 (m3 on));
    file = λ on. Covers-file o o.file a5 a6 t5 u (ap (λ c. c.pfile) e6) low s6 (m4 on);
    small = m5;
  }

no_areas-Placed : Placed 0 no_areas
no_areas-Placed = record { above = omega arith; below = omega arith }

module _ (kernel : Kernel) (rounds : ℕ) (pagemap kpageflags : (index count : ℕ) → List ℕ)
    (o : Options) (sized : IsSized o) where
  pub map_all-fine :
      (s : State)
      → IsSafe kernel s.trace
      → Fine kernel s
          (map_all kernel rounds pagemap kpageflags o)
          (λ a t. IsReady kernel o a t.trace)
  unfolding map_all
  map_all-fine s safe =
      let w0 = no_areas-Placed in
      Fine-bind _ _ (map_pmem-fine kernel o sized 0 (omega arith) no_areas s w0 safe)
        λ a1 t1 safe1 h1.
          let w1 = Placed-Stage w0 h1.0.0 in
          Fine-bind _ _ (map_hugepages-fine kernel o sized 1 (omega arith) a1 t1 w1 safe1)
            λ a2 t2 safe2 h2.
              let w2 = Placed-Stage w1 h2.0.0 in
              Fine-bind _ _
                (Fine-quiet (pprintf_wait-IsQuiet kernel rounds (codes "start check\n") []) safe2)
                λ _ t safe_t g.
                  let waited = Stage-same a2 {s = t2} {t = t} g in
                  Fine-bind _ _
                    (map_thp-fine kernel o sized 2 (omega arith) a2 t w2 safe_t pagemap kpageflags)
                    λ a3 t3 safe3 h3.
                      let w3 = Placed-Stage w2 h3.0.0 in
                      Fine-bind _ _
                        (map_unaligned-fine kernel o sized 3 (omega arith) a3 t3 w3 safe3)
                        λ a4 t4 safe4 h4.
                          let w4 = Placed-Stage w3 h4.0.0 in
                          Fine-bind _ _
                            (map_hole_file-fine kernel o sized 4 (omega arith) a4 t4 w4 safe4)
                            λ a5 t5 safe5 h5.
                              let w5 = Placed-Stage w4 h5.0 in
                              Fine-map
                                (map_small-fine kernel o sized 5 (omega arith) a5 t5 w5 safe5)
                                λ a6 t6 h6.
                                  IsReady-at o h1.0.1 h2.0.1 h3.0.1 h4.0.1 h5.1 h6.1 h2.0.0 waited
                                    h3.0.0 h4.0.0 h5.0 h6.0 (omega (arith, w5.below)) h2.1 h3.1 h4.1
                                    h5.2 h6.2
