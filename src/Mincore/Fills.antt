-- ===== src/Mincore/Fills.antt =====
-- The writes of the busy loop go to mapped memory.
use mm_regression.Base.{
  ℕ, zero, suc, ◌*◌, ◌/◌, ◌≤◌, ◌≡◌, arith, Option, none, some, true, Bool, if◌then◌else◌,
}
use mathlib.Core.Path.{subst}
use mm_regression.Base.Int.{is_zero}
use mm_regression.Base.Text.{CString}
use mm_regression.Abi.{ps}
use mm_regression.Machine.{Call, Kernel, State, M, running, ◌>>=◌, ◌>>◌, present, done}
use mm_regression.Machine.Touched.{
  IsSafe, Grows, Grows-trans, IsQuiet-stop, IsQuiet-emit, IsQuiet-call, IsQuiet-done, Fine,
  Fine-bind, Fine-quiet, Fine-map, Fine-if,
}
use mm_regression.Mincore.{fill, fill_file, fill_all, busy_loop}
use mm_regression.Mincore.Locals.{Options, Areas, chosen, before_end}
use mm_regression.Mincore.Stages.{IsSized, Covers, Fine-memset, Has-grows, Has-part}
use mm_regression.Mincore.Ready.{IsReady, IsReady-Grows, Covers-Grows, CoversFile}

pub Fine-present :
    {kernel : Kernel} {A B : Type 0} {s : State} {Q : B → State → Type 0} (o : Option A)
    (f : A → M B) (a : A)
    → o ≡ some a
    → Fine kernel s (f a) Q
    → Fine kernel s (present o >>= f) Q
Fine-present none f a e h = absurd (ground arith)
Fine-present {kernel} {s} {Q} (some b) f a e h =
    let same : a ≡ b = ground arith in
    let there = subst (λ c. Fine kernel s (f c) Q) same h in
    record { safe = there.safe; outcome = there.outcome }

module _ (kernel : Kernel) where
  -- Code that touches only what is mapped, and unmaps nothing.
  abbrev pub Stays : (s : State) → M (Unit {0}) → Type 0
  Stays s m = Fine kernel s m (λ _ t. Grows kernel s.trace t.trace)

  fill-Stays :
      (s : State) (area : Option ℕ) (n m : ℕ)
      → IsSafe kernel s.trace
      → Covers kernel area n s.trace
      → m ≤ n
      → Stays s (fill kernel area m)
  unfolding fill
  fill-Stays s area n m safe c h =
      Fine-present area _ c.addr c.known
        (Fine-memset c.addr m safe (Has-part c.addr n c.addr m (omega arith) (omega arith) c.has))

  unless :
      (s : State) (b : Bool) (m : M (Unit {0}))
      → IsSafe kernel s.trace
      → (b ≡ true → Stays s m)
      → Stays s (if b then m else done)
  unless s b m safe h = Fine-if b h (λ off. Fine-quiet IsQuiet-done safe)

  module _ (o : Options) (sized : IsSized o) where
    fill_file-Stays :
        (s : State) (file : Option CString) (a : Areas)
        → IsSafe kernel s.trace
        → CoversFile kernel o file a s.trace
        → Stays s (fill_file kernel file o a)
    unfolding fill_file before_end
    fill_file-Stays s none a safe c = Fine-quiet IsQuiet-done safe
    fill_file-Stays s (some file) a safe c =
        let size = o.memsize in
        let filled = sized.size_eq in
        let few = sized.few_pages in
        let positive = sized.some_pages in
        let p = c.addr in
        let below = c.below in
        let first = Has-part p (4 * size) p (2 * ps) (omega arith) (omega arith) c.has in
        Fine-present a.pfile _ p c.known (
          Fine-bind _ _ (Fine-memset p (2 * ps) safe first) λ _ t safe_t g.
            let q = before_end o p 2 in
            let last =
              Has-part p (4 * size) q (2 * ps) (omega arith) (omega arith) (Has-grows g c.has) in
            Fine-map (Fine-memset q (2 * ps) safe_t last) (λ _ u g'. Grows-trans g g'))

    fill_small :
        (s : State) (a : Areas)
        → IsSafe kernel s.trace
        → (chosen o 5 ≡ true
            → Covers kernel a.psmall1 (2 * ps) s.trace × Covers kernel a.psmall2 (2 * ps) s.trace)
        → chosen o 5 ≡ true
        → Stays s (fill kernel a.psmall1 ps >> fill kernel a.psmall2 ps)
    fill_small s a safe c on =
        Fine-bind _ _ (fill-Stays s a.psmall1 (2 * ps) ps safe (c on).0 (omega arith))
          λ _ t safe_t g.
            Fine-map
              (fill-Stays t a.psmall2 (2 * ps) ps safe_t (Covers-Grows g (c on).1) (omega arith))
              (λ _ u g'. Grows-trans g g')

    fill_all-Stays :
        (s : State) (a : Areas)
        → IsSafe kernel s.trace
        → IsReady kernel o a s.trace
        → Stays s (fill_all kernel o a)
    unfolding fill_all
    fill_all-Stays s a safe r =
        let size = o.memsize in
        Fine-bind _ _
          (unless s (chosen o 0) _ safe
            (λ on. fill-Stays s a.pmem size size safe (r.pmem on) (omega arith)))
          λ _ t1 safe1 g1.
            let r1 = IsReady-Grows g1 r in
            Fine-bind _ _
              (unless t1 (chosen o 1) _ safe1
                (λ on. fill-Stays t1 a.phugetlb size size safe1 (r1.phugetlb on) (omega arith)))
              λ _ t2 safe2 g2.
                let r2 = IsReady-Grows g2 r1 in
                Fine-bind _ _
                  (unless t2 (chosen o 2) _ safe2
                    (λ on. fill-Stays t2 a.pthp size size safe2 (r2.pthp on) (omega arith)))
                  λ _ t3 safe3 g3.
                    let r3 = IsReady-Grows g3 r2 in
                    Fine-bind _ _
                      (unless t3 (chosen o 3) _ safe3 (λ on.
                        fill-Stays t3 a.pmem_unaligned (size / 2) (size / 2) safe3 (r3.unaligned on)
                          (omega arith)))
                      λ _ t4 safe4 g4.
                        let r4 = IsReady-Grows g4 r3 in
                        Fine-bind _ _
                          (unless t4 (chosen o 4) _ safe4
                            (λ on. fill_file-Stays t4 o.file a safe4 (r4.file on)))
                          λ _ t5 safe5 g5.
                            let r5 = IsReady-Grows g5 r4 in
                            let g =
                              Grows-trans g1
                                (Grows-trans g2 (Grows-trans g3 (Grows-trans g4 g5))) in
                            Fine-map
                              (unless t5 (chosen o 5) _ safe5 (fill_small t5 a safe5 r5.small))
                              (λ _ t6 g6. Grows-trans g g6)

    pub busy_loop-fine :
        (rounds : ℕ) (s : State) (a : Areas)
        → IsSafe kernel s.trace
        → IsReady kernel o a s.trace
        → Stays s (busy_loop kernel rounds o a)
    unfolding busy_loop
    busy_loop-fine zero s a safe r = Fine-quiet (IsQuiet-stop running (λ e. cc)) safe
    busy_loop-fine (suc rounds) s a safe r =
        Fine-bind _ _ (Fine-quiet (IsQuiet-call Call.flag tt) safe) λ set t safe_t g.
          Fine-if (is_zero set)
            (λ cleared. Fine-map (Fine-quiet IsQuiet-done safe_t) (λ _ u g'. Grows-trans g g'))
            λ up.
              Fine-bind _ _ (Fine-quiet (IsQuiet-emit (Call.usleep 1000) tt) safe_t)
                λ _ u safe_u g'.
                  let r' = IsReady-Grows (Grows-trans g g') r in
                  Fine-bind _ _ (fill_all-Stays u a safe_u r') λ _ v safe_v k.
                    Fine-map (busy_loop-fine rounds v a safe_v (IsReady-Grows k r'))
                      (λ _ w k'. Grows-trans g (Grows-trans g' (Grows-trans k k')))
