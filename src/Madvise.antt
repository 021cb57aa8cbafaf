-- ===== src/Madvise.antt =====
-- lib/include.h: `do_madvise`, which advises whole chunks, parts of huge pages, or pages in steps.
pub mod Steps
pub mod Tests
use mm_regression.Base.{
  ℕ, zero, suc, ◌+◌, ◌-◌, ◌*◌, ◌/◌, ◌%◌, ◌^◌, List, [], ◌∷◌, Option, none, some, Bool, true, false,
  ltb, ◌==◌, not, ◌&&◌, ◌||◌, if◌then◌else◌,
}
use mm_regression.Base.Int.{ℤ, pos, is_zero}
use mm_regression.Base.Text.{CString, codes, str_eq}
use mm_regression.Abi
use mm_regression.Abi.{ps, hps}
use mm_regression.Opc.{OpControl, opc_get_value, opc_set_value}
use mm_regression.Chunk.{do_work_memory}
use mm_regression.PageOps.{int_arg, nr_hugepages}
use mm_regression.Machine.{
  Call, Kernel, MemChunk, State, exit, fault, running, M, pure, stop, ◌>>=◌, call, sext, add64,
  mul64, present,
}

-- `struct madvise_arg`; every field is the 32-bit pattern of an `int`.
pub record MadviseArg : Type 0 where
  pub advice : ℕ
  pub size : ℕ
  pub hp_partial : ℕ
  pub offset : ℕ
  pub length : ℕ
  pub step : ℕ

-- The names that `do_madvise` takes.
abbrev pub advices : List (CString × ℕ)
advices =
    (codes "normal", Abi.Madv.normal)
    ∷ (codes "random", Abi.Madv.random)
    ∷ (codes "sequential", Abi.Madv.sequential)
    ∷ (codes "willneed", Abi.Madv.willneed)
    ∷ (codes "dontneed", Abi.Madv.dontneed)
    ∷ (codes "free", Abi.Madv.free)
    ∷ (codes "remove", Abi.Madv.remove)
    ∷ (codes "dontfork", Abi.Madv.dontfork)
    ∷ (codes "fork", Abi.Madv.dofork)
    ∷ (codes "hwpoison", Abi.Madv.hwpoison)
    ∷ (codes "hard_offline", Abi.Madv.hwpoison)
    ∷ (codes "soft_offline", Abi.Madv.soft_offline)
    ∷ (codes "mergeable", Abi.Madv.mergeable)
    ∷ (codes "unmergeable", Abi.Madv.unmergeable)
    ∷ (codes "hugepage", Abi.Madv.hugepage)
    ∷ (codes "nohugepage", Abi.Madv.nohugepage)
    ∷ (codes "dontdump", Abi.Madv.dontdump)
    ∷ (codes "dodump", Abi.Madv.dodump)
    ∷ []

advice_of : CString → List (CString × ℕ) → Option ℕ
advice_of text [] = none
advice_of text ((name, advice) ∷ more) =
    let rest = advice_of text more in if str_eq text name then some advice else rest

-- The sum of two values of type `int`, whose overflow is undefined.
pub int_add : ℕ → ℕ → Option ℕ
int_add a b =
    let c = (a + b) % 2 ^ 32 in
    if ltb a (2 ^ 31)
    then (if ltb b (2 ^ 31) && not (ltb c (2 ^ 31)) then none else some c)
    else if not (ltb b (2 ^ 31)) && ltb c (2 ^ 31)
    then none
    else some c

-- `tmplen` for the page `i`: the length asked for, or what is left of the chunk.
pub step_length : (arg_length size i : ℕ) → ℕ
step_length arg_length size i =
    let tmplen = mul64 (sext arg_length) ps % 2 ^ 32 in
    if ltb size (add64 (mul64 (sext i) ps) (sext tmplen))
    then (size + 2 ^ 64 - mul64 (sext i) ps) % 2 ^ 32
    else tmplen

-- The rounds that the loop over the steps can make on a chunk.
abbrev pub step_rounds : (size : ℕ) → ℕ
step_rounds size = size / ps + 3

module _ (kernel : Kernel) where
  advise_parts : (left i : ℕ) → MadviseArg → MemChunk → M ℤ
  advise_parts zero i arg mc = pure (pos 0)
  advise_parts (suc left) i arg mc = do
    ret ← call kernel (Call.madvise (mc.p + i * hps) (mul64 (sext arg.hp_partial) ps) arg.advice)
    if is_zero ret then advise_parts left (i + 1) arg mc else pure ret

  -- The loop over the steps, at the page `i`.
  pub advise_steps : (fuel i : ℕ) → MadviseArg → MemChunk → M ℤ
  unfolding step_length int_add
  advise_steps zero i arg mc = stop running
  advise_steps (suc fuel) i arg mc = do
    ret ← call kernel (
        Call.madvise (add64 mc.p (mul64 (sext i) ps))
          (sext (step_length arg.length mc.chunk_size i)) arg.advice)
    if not (is_zero ret) then pure ret else if arg.step == 0 then pure (pos 0) else (do
      next ← present (int_add i arg.step)
      if ltb mc.chunk_size (mul64 (sext next) ps)
          then pure (pos 0)
          else advise_steps fuel next arg mc)

  -- `__do_madvise_chunk`; with a size it ends with no `return` where `madvise` succeeds.
  pub madvise_chunk : MadviseArg → MemChunk → M ℤ
  unfolding advise_parts advise_steps
  madvise_chunk arg mc =
      if not (arg.size == 0)
      then (do
        ret ← call kernel (Call.madvise mc.p (sext arg.size) arg.advice)
        if is_zero ret then call kernel Call.no_return else pure ret)
      else if not (arg.hp_partial == 0)
      then advise_parts (nr_hugepages mc.chunk_size) 0 arg mc
      else if not (arg.offset == 0) || (not (arg.length == 0) || not (arg.step == 0))
      then advise_steps (step_rounds mc.chunk_size) arg.offset arg mc
      else call kernel (Call.madvise mc.p mc.chunk_size arg.advice)

  -- A missing or an unknown advice ends the process.
  pub madvise_arg : OpControl → M MadviseArg
  unfolding advice_of
  madvise_arg opc = elim (opc_get_value opc (codes "advice")) [
    | none ↦ stop exit
    | some text ↦ elim (advice_of text advices) [
      | none ↦ stop exit
      | some advice ↦ pure (record {
        advice = advice;
        size = int_arg opc "size" 0;
        hp_partial = int_arg opc "hp_partial" 0;
        offset = int_arg opc "offset" 0;
        length = int_arg opc "length" 0;
        step = int_arg opc "step" 0;
      })
    ]
  ]

  pub do_madvise : OpControl → M (Option ℤ)
  unfolding madvise_arg madvise_chunk
  do_madvise opc = do arg ← madvise_arg opc; do_work_memory (madvise_chunk arg)

  pub do_madv_soft : OpControl → M OpControl
  unfolding do_madvise
  do_madv_soft opc = do
    opc1 ← present (opc_set_value opc (codes "advice") (codes "soft_offline"))
    opc2 ← present (opc_set_value opc1 (codes "size") (codes "4096"))
    _ ← do_madvise opc2
    pure opc2
