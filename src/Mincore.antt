-- ===== src/Mincore.antt =====
-- lib/test_mincore.c: it maps areas of several kinds, shows which of their pages mincore finds in
-- memory, and writes to them until SIGUSR1 arrives. `getopt` hands out the options, which are a
-- list here; `malloc` is taken to succeed, and the bytes that it leaves are a parameter.
pub mod Locals
pub mod Buffer
pub mod Shown
pub mod Ready
pub mod Safe
pub mod Fills
pub mod Shows
pub mod Stages
pub mod Holes
pub mod Mapping
pub mod Tests
use mm_regression.Base.{
  true, false, Bool, ◌∷◌, ℕ, zero, suc, ◌+◌, ◌-◌, ◌*◌, ◌/◌, List, [], ◌++◌, Option, none, some, not,
  ltb, ◌==◌, bit_or, length, drop, tabulate, if◌then◌else◌,
}
use mm_regression.Base.Int.{negsuc, is_zero}
use mm_regression.Base.Text.{CString, codes}
use mm_regression.Abi
use mm_regression.Abi.{ps, hps, protflag, map_shared, map_private_anonymous, map_hugetlb}
use mm_regression.Chunk.{checked_mmap, checked_open}
use mm_regression.Wait.{pprintf, pprintf_wait}
use mm_regression.PageInfo.{check_kpflags}
use mm_regression.Machine.{
  ◌>>=◌, ◌>>◌, Call, Kernel, exit, fault, running, M, pure, stop, done, gets, present, call, emit,
  into_buffer, add64, mul64, times,
}
use Buffer.{map_text}
use Locals.{Options, defaults, Areas, no_areas, chosen, before_end, read_options}

pub has_percent : CString → Bool
has_percent [] = false
has_percent (c ∷ s) = let rest = has_percent s in if c == b'%' then true else rest

module _ (kernel : Kernel) where
  pub map_pmem : Options → Areas → M Areas
  map_pmem o a = if not (chosen o 0) then pure a else (do
    p ← checked_mmap kernel a.address o.memsize protflag map_private_anonymous (negsuc 0) 0
    emit kernel (Call.madvise p o.memsize Abi.Madv.nohugepage)
    emit kernel (Call.memset p (o.memsize / 2))
    pure (record a { pmem = some p; address = add64 a.address o.memsize }))

  pub map_hugepages : Options → Areas → M Areas
  map_hugepages o a = if not (chosen o 1) then pure a else (do
    p ←
        checked_mmap kernel a.address o.memsize protflag (bit_or map_private_anonymous map_hugetlb)
          (negsuc 0) 0
    emit kernel (Call.memset p 1)
    pure (record a { phugetlb = some p; address = add64 a.address o.memsize }))

  -- The rounds of `for (offset = 0; offset < memsize; offset += HPS)` are counted.
  pub map_thp : (pagemap kpageflags : (index count : ℕ) → List ℕ) → Options → Areas → M Areas
  map_thp pagemap kpageflags o a = if not (chosen o 2) then pure a else (do
    p ← checked_mmap kernel a.address o.memsize protflag map_private_anonymous (negsuc 0) 0
    emit kernel (Call.memset p 1)
    times ((o.memsize + hps - 1) / hps) 0 (λ i. do
      thp ← check_kpflags kernel kpageflags pagemap (add64 p (i * hps)) 22
      if thp == 0 then stop exit else done)
    pure (record a { pthp = some p; address = add64 a.address o.memsize }))

  -- The first and the last quarter are unmapped, and a quarter that follows the area.
  pub map_unaligned : Options → Areas → M Areas
  map_unaligned o a = if not (chosen o 3) then pure a else (do
    p ← checked_mmap kernel a.address o.memsize protflag map_private_anonymous (negsuc 0) 0
    emit kernel (Call.madvise p o.memsize Abi.Madv.nohugepage)
    emit kernel (Call.munmap p (o.memsize / 4))
    emit kernel (Call.munmap (add64 p (mul64 o.memsize 3 / 4)) (o.memsize / 2))
    let q = add64 p (o.memsize / 4)
    emit kernel (Call.memset q (o.memsize / 2 / 2))
    pure (record a { pmem_unaligned = some q; address = add64 a.address o.memsize }))

  pub map_opened : (file : Option CString) → Options → Areas → M Areas
  unfolding before_end
  map_opened none o a = pure a
  map_opened (some file) o a = do
    fd ← checked_open kernel file
    p ← checked_mmap kernel a.address (mul64 o.memsize 4) protflag map_shared fd 0
    emit kernel (Call.memset p ps)
    emit kernel (Call.memset (before_end o p 2) ps)
    pure (record a { pfile = some p; address = add64 a.address (mul64 o.memsize 4) })

  pub map_hole_file : Options → Areas → M Areas
  unfolding map_opened
  map_hole_file o a = if not (chosen o 4) then pure a else map_opened o.file o a

  pub map_small : Options → Areas → M Areas
  map_small o a = if not (chosen o 5) then pure a else (do
    p ← checked_mmap kernel a.address (2 * ps) protflag map_private_anonymous (negsuc 0) 0
    q ←
        checked_mmap kernel (add64 a.address (4 * ps)) (2 * ps) protflag map_private_anonymous
          (negsuc 0) 0
    emit kernel (Call.memset p ps)
    emit kernel (Call.memset q ps)
    pure (record a { psmall1 = some p; psmall2 = some q; address = add64 a.address o.memsize }))

module _ (kernel : Kernel) (residency : List Call → ℕ → ℕ) (junk : ℕ → ℕ) where
  -- The bytes that `vec` holds afterwards: one for each page, as `mincore` finds it after the calls
  -- made so far.
  pub checked_mincore : (addr size : ℕ) → (vec : List ℕ) → M (List ℕ)
  checked_mincore addr size vec = do
    calls ← gets (λ s. s.trace)
    ret ← call kernel (Call.mincore addr size)
    if not (is_zero ret)
        then stop exit
        else let pages = (size + ps - 1) / ps in
          if ltb (length vec) pages
          then stop fault
          else pure (tabulate pages 0 (residency calls) ++ drop pages vec)

  -- `pprintf` formats the text into a page on the stack. The text is the format, with no arguments: a
  -- `%` in it begins a conversion that has none, which is undefined. (`%%` is not told from it.)
  pub show_mincore_map : (tag : CString) → (size : ℕ) → (vec : List ℕ) → M (Unit {0})
  unfolding has_percent
  show_mincore_map tag size vec = do
    p ← present (map_text junk tag size vec)
    (if has_percent p then stop fault else done)
    text ← into_buffer ps p
    pprintf kernel text []

  -- `checked_mincore(...); show_mincore_map(...)`
  pub check_and_show : (tag : CString) → (area : Option ℕ) → (size : ℕ) → List ℕ → M (List ℕ)
  unfolding checked_mincore show_mincore_map
  check_and_show tag area size vec = do
    addr ← present area
    vec' ← checked_mincore addr size vec
    show_mincore_map tag size vec'
    pure vec'

  pub show_file : (file : Option CString) → Options → Areas → List ℕ → M (List ℕ)
  unfolding check_and_show
  show_file none o a vec = pure vec
  show_file (some file) o a vec = check_and_show (codes "mincore5") a.pfile (mul64 o.memsize 4) vec

  pub show_small : Areas → List ℕ → M (List ℕ)
  unfolding check_and_show
  show_small a vec = do
    vec' ← check_and_show (codes "mincore6") a.psmall1 (2 * ps) vec
    check_and_show (codes "mincore7") a.psmall2 (2 * ps) vec'

  pub show_all : Options → Areas → List ℕ → M (List ℕ)
  unfolding check_and_show show_file show_small
  show_all o a vec = do
    vec1 ← if chosen o 0 then check_and_show (codes "mincore1") a.pmem o.memsize vec else pure vec
    vec2 ←
        if chosen o 1
        then check_and_show (codes "mincore2") a.phugetlb o.memsize vec1
        else pure vec1
    vec3 ← if chosen o 2 then check_and_show (codes "mincore3") a.pthp o.memsize vec2 else pure vec2
    vec4 ←
        if chosen o 3
        then check_and_show (codes "mincore4") a.pmem_unaligned (o.memsize / 2) vec3
        else pure vec3
    vec5 ← if chosen o 4 then show_file o.file o a vec4 else pure vec4
    if chosen o 5 then show_small a vec5 else pure vec5

module _ (kernel : Kernel) where
  pub fill : (area : Option ℕ) → (size : ℕ) → M (Unit {0})
  fill area size = do p ← present area; emit kernel (Call.memset p size)

  pub fill_file : (file : Option CString) → Options → Areas → M (Unit {0})
  unfolding before_end
  fill_file none o a = done
  fill_file (some file) o a = do
    p ← present a.pfile
    emit kernel (Call.memset p (2 * ps))
    emit kernel (Call.memset (before_end o p 2) (2 * ps))

  -- The writes of a round of the busy loop.
  pub fill_all : Options → Areas → M (Unit {0})
  unfolding fill fill_file
  fill_all o a = do
    if chosen o 0 then fill a.pmem o.memsize else done
    if chosen o 1 then fill a.phugetlb o.memsize else done
    if chosen o 2 then fill a.pthp o.memsize else done
    if chosen o 3 then fill a.pmem_unaligned (o.memsize / 2) else done
    if chosen o 4 then fill_file o.file o a else done
    if chosen o 5 then (do fill a.psmall1 ps; fill a.psmall2 ps) else done

  -- `while (flag) { ... }`
  pub busy_loop : (rounds : ℕ) → Options → Areas → M (Unit {0})
  unfolding fill_all
  busy_loop zero o a = stop running
  busy_loop (suc rounds) o a = do
    set ← call kernel Call.flag
    if is_zero set
        then done
        else (do emit kernel (Call.usleep 1000); fill_all o a; busy_loop rounds o a)

  module _ (rounds : ℕ) (pagemap kpageflags : (index count : ℕ) → List ℕ) where
    -- The first part of `main`, which maps the areas.
    pub map_all : Options → M Areas
    unfolding map_pmem map_hugepages map_thp map_unaligned map_hole_file map_small
    map_all o = do
      a1 ← map_pmem kernel o no_areas
      a2 ← map_hugepages kernel o a1
      pprintf_wait kernel rounds (codes "start check\n") []
      a3 ← map_thp kernel pagemap kpageflags o a2
      a4 ← map_unaligned kernel o a3
      a5 ← map_hole_file kernel o a4
      map_small kernel o a5

    module _ (residency : List Call → ℕ → ℕ) (junk : ℕ → ℕ) where
      -- `main` after the options; `vec` has a byte for each page of the largest area.
      pub run : Options → M (Unit {0})
      unfolding map_all show_all busy_loop
      run o = do
        a ← map_all o
        emit kernel Call.signal_sigusr1
        let vec = tabulate (mul64 o.memsize 4 / ps) 0 junk
        vec' ← show_all kernel residency junk o a vec
        pprintf kernel (codes "entering busy loop\n") []
        busy_loop rounds o a
        pprintf_wait kernel rounds (codes "mincore exit\n") []

      pub main : (options : List (ℕ × CString)) → M (Unit {0})
      unfolding read_options run
      main options = do o ← read_options kernel options defaults; run o
