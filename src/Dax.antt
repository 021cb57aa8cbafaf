-- ===== src/Dax.antt =====
-- lib/test_dax.c: it maps a file or a device in regions of 1 GB and reads or writes it in pieces, a
-- given number of times. The environment is a parameter; `malloc` is taken to succeed.
pub mod Inputs
pub mod Regions
pub mod Repeats
pub mod Tests
use mm_regression.Base.{
  ℕ, zero, suc, ◌+◌, ◌*◌, ◌/◌, ◌%◌, ◌^◌, List, [], ◌∷◌, Option, none, some, Bool, not, ◌||◌, ltb,
  ◌==◌, bit_or, get_elem?, if◌then◌else◌,
}
use mm_regression.Base.Int.{ℤ, is_zero, is_neg, is_minus_one}
use mm_regression.Base.Text.{CString, codes, str_eq}
use mm_regression.Abi.{hps, addr_input, protflag, map_shared}
use mm_regression.Machine.{
  ◌>>=◌, ◌>>◌, Call, Kernel, exit, fault, running, pure, stop, done, present, as_word, add64, sub64,
  mul64,
}
use mm_regression.Machine.Bare.{R, call, emit}
use Inputs.{Environment, number_of, Arguments, read_arguments}

abbrev pub gb : ℕ
gb = 0x40000000

abbrev map_sync : ℕ
map_sync = 0x80000

-- The bytes of the region `index`.
pub chunk_size : (index size : ℕ) → ℕ
chunk_size index size = let tmp = sub64 size (index * gb) in if ltb gb tmp then gb else tmp

-- `(size - 1UL) / GB + 1UL`, as an `int`.
pub nr_mmaps : (size : ℕ) → ℕ
nr_mmaps size = (sub64 size 1 / gb + 1) % 2 ^ 32

-- The values of `iotype` for which the regions are mapped.
is_mapped_type : CString → Bool
is_mapped_type iotype =
    str_eq iotype (codes "write")
    || str_eq iotype (codes "read")
    || str_eq iotype (codes "pmem_memset_write")
    || str_eq iotype (codes "pmem_memset_persist_write")
    || str_eq iotype (codes "pmem_memcpy_read")

module _ (kernel : Kernel) where
  -- The loop of `prepare_fsdax_file`, for `left` rounds from `i` on. The product is an `int`, whose
  -- overflow is undefined.
  prepare : (fd : ℤ) → (left i : ℕ) → R (Unit {0})
  prepare fd zero i = done
  prepare fd (suc left) i =
      if ltb (i * hps) (2 ^ 31)
      then (do emit kernel (Call.pwrite fd hps (i * hps)); prepare fd left (i + 1))
      else stop fault

  pub prepare_fsdax_file : (fd : ℤ) → (size : ℕ) → R (Unit {0})
  unfolding prepare
  prepare_fsdax_file fd size = prepare fd (size / hps) 0

  -- The addresses of the regions; `none` is `return 1`.
  pub map_regions : (flags : ℕ) → (fd : ℤ) → (size left i : ℕ) → R (Option (List ℕ))
  unfolding chunk_size
  map_regions flags fd size zero i = pure (some [])
  map_regions flags fd size (suc left) i = do
    r ← call kernel (Call.mmap (addr_input + i * gb) (chunk_size i size) protflag flags fd (i * gb))
    if is_minus_one r then pure none else (do
      rest ← map_regions flags fd size left (i + 1)
      elim rest [ none ↦ pure none | some addrs ↦ pure (some (as_word r ∷ addrs)) ])

  -- `addr[(i * iosize) / GB] + (i * iosize) % GB`, for an `int` `i`
  pub place : (addrs : List ℕ) → (iosize i : ℕ) → R ℕ
  place addrs iosize i =
      if ltb i (2 ^ 31)
      then (do
        base ← present (get_elem? addrs (mul64 i iosize / gb))
        pure (add64 base (mul64 i iosize % gb)))
      else stop fault

  -- One access; `some` is `return`.
  pub write_at : (addrs : List ℕ) → (iosize i : ℕ) → R (Option ℕ)
  unfolding place
  write_at addrs iosize i = do
    p ← place addrs iosize i
    emit kernel (Call.memset p iosize)
    pure none

  pub read_at : (addrs : List ℕ) → (iosize i : ℕ) → R (Option ℕ)
  unfolding place
  read_at addrs iosize i = do
    p ← place addrs iosize i
    emit kernel (Call.memread p iosize)
    pure none

  pub syswrite_at : (fd : ℤ) → (iosize i : ℕ) → R (Option ℕ)
  syswrite_at fd iosize i = do
    r ← call kernel (Call.pwrite fd iosize (mul64 i iosize))
    pure (if is_minus_one r then some 1 else none)

  pub sysread_at : (fd : ℤ) → (iosize i : ℕ) → R (Option ℕ)
  sysread_at fd iosize i = do
    r ← call kernel (Call.pread fd iosize (mul64 i iosize))
    pure (if is_minus_one r then some 1 else none)

-- The inner loop: `left` accesses from `i` on. `repeat` counts down, and the process ends with
-- success where it comes to 0, after `finish`. The result is the counter, and the exit status if
-- there is one. `i` is an `int` and `repeat` a `signed long`, and to overflow one is undefined.
pub accesses :
    (body : ℕ → R (Option ℕ)) (finish : R (Unit {0})) (left i repeat : ℕ) → R (ℕ × Option ℕ)
accesses body finish zero i repeat = pure (repeat, none)
accesses body finish (suc left) i repeat = do
  ended ← body i
  elim ended [
    | some status ↦ pure (repeat, some status)
    | none ↦
        let more = accesses body finish left (i + 1) (sub64 repeat 1) in
        if repeat == 2 ^ 63
        then stop fault
        else if sub64 repeat 1 == 0
        then (do finish; pure (0, some 0))
        else if ltb (i + 1) (2 ^ 31)
        then more
        else stop fault
  ]

-- `while (1)`, as far as `rounds` rounds go.
pub passes :
    (body : ℕ → R (Option ℕ)) (finish : R (Unit {0})) (norepeat : Bool) (count rounds repeat : ℕ)
    → R ℕ
unfolding accesses
passes body finish norepeat count zero repeat = stop running
passes body finish norepeat count (suc rounds) repeat = do
  (repeat', ended) ← accesses body finish count 0 repeat
  elim ended [
    | some status ↦ pure status
    | none ↦
        let more = passes body finish norepeat count rounds repeat' in
        if norepeat then pure 0 else more
  ]

module _ (kernel : Kernel) (rounds : ℕ) (env : Environment) where
  -- `size/iosize` accesses in a pass.
  repeat_io : (a : Arguments) → (body : ℕ → R (Option ℕ)) → (finish : R (Unit {0})) → R ℕ
  unfolding passes number_of
  repeat_io a body finish =
      if a.iosize == 0
      then stop fault
      else passes body finish (not (number_of env.no_repeat == 0)) (a.size / a.iosize) rounds
          (number_of env.repeats)

  -- The types that map the regions; those of libpmem do no more than that.
  mapped_io : (a : Arguments) → (iotype : CString) → (addrs : List ℕ) → R ℕ
  unfolding repeat_io write_at read_at
  mapped_io a iotype addrs =
      if str_eq iotype (codes "write")
      then repeat_io a (write_at kernel addrs a.iosize) done
      else if str_eq iotype (codes "read")
      then repeat_io a (read_at kernel addrs a.iosize) done
      else pure 0

  io : (a : Arguments) → (flags : ℕ) → (fd : ℤ) → (iotype : CString) → R ℕ
  unfolding is_mapped_type map_regions mapped_io nr_mmaps syswrite_at sysread_at
  io a flags fd iotype =
      if is_mapped_type iotype
      then (do
        mapped ← map_regions kernel flags fd a.size (nr_mmaps a.size) 0
        elim mapped [ none ↦ pure 1 | some addrs ↦ mapped_io a iotype addrs ])
      else if str_eq iotype (codes "syswrite")
      then repeat_io a (syswrite_at kernel fd a.iosize) (emit kernel (Call.fsync fd))
      else if str_eq iotype (codes "sysread")
      then repeat_io a (sysread_at kernel fd a.iosize) done
      else stop exit

  set_dax : (fd : ℤ) → R (Unit {0})
  set_dax fd = if not env.set_statx_attr_dax then done else (do
    ret ← call kernel (Call.ioctl_getflags fd)
    if is_neg ret then stop exit else (do
      attr ← call kernel (Call.stored_flags fd)
      ret' ← call kernel (Call.ioctl_setflags fd (bit_or (as_word attr % 2 ^ 32) 0x2000000))
      if is_neg ret' then stop exit else done))

  warm_up : (fd : ℤ) → (size : ℕ) → R (Unit {0})
  unfolding prepare_fsdax_file number_of
  warm_up fd size = if not (number_of env.no_warmup == 0) then done else (do
    regular ← call kernel (Call.fstat_is_regular fd)
    if is_zero regular then done else prepare_fsdax_file kernel fd size)

  open_path : Option CString → R ℤ
  open_path none = stop exit
  open_path (some path) = do
    fd ← call kernel (Call.create_rw path)
    if is_minus_one fd then stop exit else pure fd

  -- The exit status. A number of regions that is negative as an `int` is not modelled: `fault`.
  pub main : (argv : List CString) → R ℕ
  unfolding read_arguments open_path set_dax warm_up io number_of
  main argv = do
    let a = read_arguments argv
    handler ← call kernel Call.sigaction_sigbus
    if not (is_zero handler) then pure 1 else (do
      emit kernel Call.prctl_dumpable
      fd ← open_path a.path
      let flags = if number_of env.map_sync == 0 then map_shared else bit_or map_shared map_sync
      set_dax fd
      if ltb (nr_mmaps a.size) (2 ^ 31) then done else stop fault
      warm_up fd a.size
      attributes ← call kernel (Call.statx fd)
      if not (is_zero attributes)
          then stop exit
          else (do iotype ← present a.iotype; io a flags fd iotype))
