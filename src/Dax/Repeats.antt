-- ===== src/Dax/Repeats.antt =====
-- REPEATS counts the accesses.
use mm_regression.Base.{
  ℕ, zero, suc, ◌+◌, ◌-◌, ◌^◌, ◌≤◌, ◌<◌, ◌≡◌, refl, ap, ◌∙◌, arith, List, ◌∷◌, Option, none, some,
  true, false, ◌==◌, length, lt→ltb,
}
use native.Mathlib.Decide.{dec_lt}
use mm_regression.Machine.{Call, Result, ok, sub64}
use mm_regression.Machine.Bare.{R}
use mm_regression.Dax.{accesses, passes}

-- Each of the `count` accesses of a pass makes one call, and does not end the process.
pub record IsPass (count : ℕ) (body : ℕ → R (Option ℕ)) : Type 0 where
  pub at : (i : ℕ) (t : List Call) → i < count → (c : Call) × (body i t ≡ (ok none, c ∷ t))

-- What comes after the last access returns, with the calls `after`.
pub record IsFinish (finish : R (Unit {0})) (after : List Call → List Call) : Type 0 where
  pub at : (t : List Call) → finish t ≡ (ok tt, after t)

-- What a pass with `left` accesses left and the counter `n` comes to.
record Passed (r : Result (ℕ × Option ℕ) × List Call) (after : List Call → List Call) (left n : ℕ)
    (t : List Call) : Type 0 where
  calls : List Call
  ends : n ≤ left → (r ≡ (ok (0, some 0), after calls)) × (length calls ≡ n + length t)
  goes_on : left < n → (r ≡ (ok (n - left, none), calls)) × (length calls ≡ left + length t)

module _ (count : ℕ) (body : ℕ → R (Option ℕ)) (finish : R (Unit {0}))
    (after : List Call → List Call) (goes : IsPass count body) (stops : IsFinish finish after)
    (int : count < 2 ^ 31) where
  accesses_last :
      (left i n : ℕ) (t : List Call)
      → n ≡ 1
      → (below : i < count)
      → accesses body finish (suc left) i n t ≡ (ok (0, some 0), after ((goes.at i t below).0 ∷ t))
  unfolding accesses
  accesses_last left i n t e below =
      let zero_left : (sub64 n 1 == 0) ≡ true = ground arith in
      let small : (n == 2 ^ 63) ≡ false = ground arith in
      rw ((goes.at i t below).1, small, zero_left, stops.at ((goes.at i t below).0 ∷ t)) refl

  accesses_next :
      (left i n : ℕ) (t : List Call)
      → 1 < n
      → n < 2 ^ 63
      → (below : i < count)
      → accesses body finish (suc left) i n t
        ≡ accesses body finish left (i + 1) (n - 1) ((goes.at i t below).0 ∷ t)
  unfolding accesses
  accesses_next left i n t h k below =
      let some_left : (sub64 n 1 == 0) ≡ false = ground arith in
      let small : (n == 2 ^ 63) ≡ false = ground arith in
      let index = lt→ltb (i + 1) (2 ^ 31) (omega arith) in
      let here : sub64 n 1 ≡ n - 1 = omega arith in
      rw ((goes.at i t below).1, small, some_left, index)
        (ap (λ c. accesses body finish left (i + 1) c ((goes.at i t below).0 ∷ t)) here)

  -- A pass makes as many accesses as are left to make, and ends the process with the last of them.
  accesses_lem :
      (left i n : ℕ) (t : List Call)
      → i + left ≤ count
      → 0 < n
      → n < 2 ^ 63
      → Passed (accesses body finish left i n t) after left n t
  unfolding accesses
  accesses_lem zero i n t fits h k = record {
    calls = t;
    ends = λ none_left. absurd (omega arith);
    goes_on = λ more. (ap (λ (c : ℕ). (ok (c, none), t)) (omega arith), omega arith);
  }
  accesses_lem (suc left) i n t fits h k =
      let below : i < count = omega arith in
      let c = (goes.at i t below).0 in
      elim (dec_lt 1 n) [
        | yes more ↦
            let next = accesses_next left i n t more k below in
            let rest =
              accesses_lem left (i + 1) (n - 1) (c ∷ t) (omega arith) (omega arith) (omega arith) in
            record {
              calls = rest.calls;
              ends = λ few.
                  (next ∙ (rest.ends (omega arith)).0, omega (arith, (rest.ends (omega arith)).1));
              goes_on = λ many. (
                next
                    ∙ (rest.goes_on (omega arith)).0
                    ∙ ap (λ (m : ℕ). (ok (m, none), rest.calls)) (omega arith),
                omega (arith, (rest.goes_on (omega arith)).1),
              );
            }
        | no last ↦ record {
          calls = c ∷ t;
          ends = λ few. (accesses_last left i n t (omega arith) below, omega arith);
          goes_on = λ many. absurd (omega arith);
        }
      ]

  -- Where REPEATS is a number `n` other than 0 that fits a `signed long`, NO_REPEAT is not set, a
  -- pass has an access at least and fewer than 2^31, and each of its accesses makes one call and
  -- succeeds, the program ends with success after `n` accesses and what comes after the last, however
  -- many accesses a pass has; `n` rounds of the outer loop are enough.
  pub passes_lem :
      (rounds n : ℕ) (t : List Call)
      → 0 < count
      → 0 < n
      → n < 2 ^ 63
      → n ≤ rounds
      → (u : List Call) × (passes body finish false count rounds n t ≡ (ok 0, after u))
        × (length u ≡ n + length t)
  unfolding passes
  passes_lem zero n t some_count positive word enough = absurd (omega arith)
  passes_lem (suc rounds) n t some_count positive word enough =
      let pass = accesses_lem count 0 n t (omega arith) positive word in
      elim (dec_lt count n) [
        | yes more ↦
            let (u, e, long) =
              passes_lem rounds (n - count) pass.calls some_count (omega arith) (omega arith)
                (omega arith) in
            (u, rw (pass.goes_on more).0 e, omega (arith, (pass.goes_on more).1, long))
        | no last ↦ (pass.calls, rw (pass.ends (omega arith)).0 refl, (pass.ends (omega arith)).1)
      ]
