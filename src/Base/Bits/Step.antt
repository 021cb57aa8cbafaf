-- ===== src/Base/Bits/Step.antt =====
-- The lowest binary digit of `&`, `|` and `^`. The native operations mean `bitwise`, which
-- recurs on the digits with fuel; here the fuel is dropped.
use Prim.Native.Nat.{ℕ, zero, suc, ◌+◌, ◌*◌, ◌/◌, ◌%◌, ◌≤◌, min, max, bit_and, bit_or, bit_xor}
use Prim.Native.Nat.{digits, differ, bit_and-bitwise, bit_or-bitwise, bit_xor-bitwise}
use mathlib.Core.Path.{◌≡◌, refl}
use native.Mathlib.Omega.{arith}

module _ (z : ℕ → ℕ) (op : ℕ → ℕ → ℕ) where
  -- Any two amounts of fuel that cover the first number give one result.
  enough_fuel : (k l x y : ℕ) → x ≤ k → x ≤ l → digits z op k x y ≡ digits z op l x y
  enough_fuel zero zero zero y p q = refl
  enough_fuel zero (suc l) zero y p q = refl
  enough_fuel (suc k) zero zero y p q = refl
  enough_fuel (suc k) (suc l) zero y p q = refl
  enough_fuel zero l (suc x) y p q = absurd (omega arith)
  enough_fuel (suc k) zero (suc x) y p q = absurd (omega arith)
  enough_fuel (suc k) (suc l) (suc x) y p q =
      omega (arith, enough_fuel k l (suc x / 2) (y / 2) (omega arith) (omega arith))

  lowest :
      (x y : ℕ)
      → digits z op (suc x) (suc x) y
        ≡ digits z op (suc x / 2) (suc x / 2) (y / 2) * 2 + op (suc x % 2) (y % 2)
  lowest x y =
      omega (arith, enough_fuel x (suc x / 2) (suc x / 2) (y / 2) (omega arith) (omega arith))

pub bit_and_step : (x y : ℕ) → bit_and x y ≡ bit_and (x / 2) (y / 2) * 2 + min (x % 2) (y % 2)
bit_and_step zero y = simp bit_and-bitwise (omega arith)
bit_and_step (suc x) y = simp bit_and-bitwise (lowest (λ _. 0) min x y)

pub bit_or_step : (x y : ℕ) → bit_or x y ≡ bit_or (x / 2) (y / 2) * 2 + max (x % 2) (y % 2)
bit_or_step zero y = simp bit_or-bitwise (omega arith)
bit_or_step (suc x) y = simp bit_or-bitwise (lowest (λ v. v) max x y)

pub bit_xor_step : (x y : ℕ) → bit_xor x y ≡ bit_xor (x / 2) (y / 2) * 2 + differ (x % 2) (y % 2)
bit_xor_step zero y = simp bit_xor-bitwise (omega arith)
bit_xor_step (suc x) y = simp bit_xor-bitwise (lowest (λ v. v) differ x y)
