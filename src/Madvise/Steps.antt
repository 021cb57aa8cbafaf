-- ===== src/Madvise/Steps.antt =====
-- The loop of `__do_madvise_chunk` over the steps comes to an end, and stays inside the chunk.
use mm_regression.Base.{
  ℕ, zero, suc, ◌+◌, ◌*◌, ◌/◌, ◌^◌, ◌≤◌, ◌<◌, ◌≡◌, ◌≢◌, sym, arith, false, ltb, ◌==◌, not, some,
}
use mathlib.Core.Path.{subst}
use native.Mathlib.Decide.{dec_lt}
use mm_regression.Base.Int.{pos, is_zero}
use mm_regression.Abi.{ps}
use mm_regression.Machine.{Call, Kernel, MemChunk, sext, mul64, add64, call}
use mm_regression.Machine.Ends.{Ends, Ends-pure, Ends-call, Ends-if, Ends-bind, Ends-present}
use mm_regression.Madvise.{MadviseArg, int_add, step_length, step_rounds, advise_steps}

-- Where the loop goes on, its next page begins in the chunk or at its end.
next_inside :
    (size next : ℕ)
    → size < 2 ^ 31
    → next < 2 ^ 32
    → ltb size (mul64 (sext next) ps) ≡ false
    → (next < 2 ^ 31) × (next * ps ≤ size)
next_inside size next hs hn h = ground arith

int_add-lt : (a b : ℕ) {c : ℕ} → int_add a b ≡ some c → c < 2 ^ 32
unfolding int_add
int_add-lt a b h = ground arith

int_add_up : (a b : ℕ) {c : ℕ} → a < 2 ^ 31 → b < 2 ^ 31 → int_add a b ≡ some c → c ≡ a + b
unfolding int_add
int_add_up a b ha hb h = ground arith

-- A negative step goes down, or to a negative page.
int_add_down :
    (a b : ℕ) {c : ℕ}
    → a < 2 ^ 31
    → 2 ^ 31 ≤ b
    → b < 2 ^ 32
    → int_add a b ≡ some c
    → c < 2 ^ 31
    → c < a
unfolding int_add
int_add_down a b ha hb hb' h hc = ground arith

module _ (kernel : Kernel) (arg : MadviseArg) (mc : MemChunk) (small : mc.chunk_size < 2 ^ 31) where
  one_step :
      (fuel i : ℕ)
      → ((next : ℕ)
          → arg.step ≢ 0
          → int_add i arg.step ≡ some next
          → (next < 2 ^ 31) × (next * ps ≤ mc.chunk_size)
          → Ends (advise_steps kernel fuel next arg mc))
      → Ends (advise_steps kernel (suc fuel) i arg mc)
  unfolding advise_steps
  one_step fuel i rest =
      let body =
        Ends-bind
          (call kernel (
            Call.madvise (add64 mc.p (mul64 (sext i) ps))
              (sext (step_length arg.length mc.chunk_size i)) arg.advice))
          _ (Ends-call kernel _)
          λ ret.
            Ends-if (not (is_zero ret)) (λ _. Ends-pure ret)
              λ _.
                Ends-if (arg.step == 0) (λ _. Ends-pure (pos 0))
                  λ moving. Ends-present (int_add i arg.step) _ λ next e.
                    Ends-if (ltb mc.chunk_size (mul64 (sext next) ps)) (λ _. Ends-pure (pos 0))
                      λ inside.
                        rest next (ground arith) e
                          (next_inside mc.chunk_size next small (int_add-lt i arg.step e) inside) in
      record { at = body.at }

  goes_up :
      (fuel i : ℕ)
      → arg.step < 2 ^ 31
      → i * ps ≤ mc.chunk_size
      → mc.chunk_size / ps < i + fuel
      → Ends (advise_steps kernel fuel i arg mc)
  goes_up zero i hs hi hf = absurd (omega arith)
  goes_up (suc fuel) i hs hi hf = one_step fuel i λ next moving e inside.
      let sum : next ≡ i + arg.step = int_add_up i arg.step (omega arith) hs e in
      goes_up fuel next hs inside.1 (omega arith)

  goes_down :
      (fuel i : ℕ)
      → 2 ^ 31 ≤ arg.step
      → arg.step < 2 ^ 32
      → i * ps ≤ mc.chunk_size
      → i < fuel
      → Ends (advise_steps kernel fuel i arg mc)
  goes_down zero i hs hs' hi hf = absurd (omega arith)
  goes_down (suc fuel) i hs hs' hi hf = one_step fuel i λ next moving e inside.
      let less : next < i = int_add_down i arg.step (omega arith) hs hs' e inside.0 in
      goes_down fuel next hs hs' inside.1 (omega arith)

  -- On a chunk below 2 GiB the loop over the steps, upwards or downwards, ends by itself from any
  -- page and for any step, in a result or in an overflow of `int`: `step_rounds` rounds are enough.
  pub advise_steps-Ends :
      (i : ℕ) → arg.step < 2 ^ 32 → Ends (advise_steps kernel (step_rounds mc.chunk_size) i arg mc)
  advise_steps-Ends i hs =
      let fuel = mc.chunk_size / ps + 2 in
      let shape : step_rounds mc.chunk_size ≡ suc fuel = omega arith in
      let rest = one_step fuel i λ next moving e inside. elim (dec_lt arg.step (2 ^ 31)) [
        | yes up ↦ goes_up fuel next up inside.1 (omega arith)
        | no down ↦ goes_down fuel next (omega arith) hs inside.1 (omega arith)
      ] in
      subst (λ f. Ends (advise_steps kernel f i arg mc)) (sym shape) rest

-- From a page inside the chunk, with a length below 2 GiB that is not negative, the range that is
-- advised ends inside the chunk.
pub step_length-le :
    (len size i : ℕ)
    → size < 2 ^ 31
    → i * ps ≤ size
    → len * ps < 2 ^ 31
    → i * ps + step_length len size i ≤ size
unfolding step_length
step_length-le len size i hs hi hl = ground arith
