-- ===== src/Base/Bits.antt =====
-- Single bits of a machine word, and what `&`, `|` and `^` do to each of them.
mod Step
pub mod Mask
use Step.{bit_and_step, bit_or_step, bit_xor_step}
use Prim.Native.Nat.{ℕ, zero, suc, ◌+◌, ◌*◌, ◌/◌, ◌%◌, ◌^◌, ◌≤◌, ◌<◌, bit_and, bit_or, bit_xor}
use Prim.Native.Nat.{differ, bit_and-bitwise}
use mathlib.Core.Path.{◌≡◌, refl, ◌∙◌, ap, ◌≡⟨◌⟩◌, ◌∎}
use mathlib.Core.Bool.{Bool, true, false, not, ◌&&◌, ◌||◌, xor}
use native.Mathlib.Omega.{arith}
use native.Mathlib.Nat.{pow-suc, pow-succ', div-div-eq-div-mul, le_refl, one-le-pow}
use mm_regression.Base.Tests.{◌==◌}

-- Bit `n` of `x`.
unfoldable pub test_bit : ℕ → ℕ → Bool
test_bit x zero = x % 2 == 1
test_bit x (suc n) = test_bit (x / 2) n

pub test_bit-bit_and : (n x y : ℕ) → test_bit (bit_and x y) n ≡ (test_bit x n && test_bit y n)
unfolding test_bit
test_bit-bit_and zero x y = ground (arith, bit_and_step x y)
test_bit-bit_and (suc n) x y =
    let half : bit_and x y / 2 ≡ bit_and (x / 2) (y / 2) = omega (arith, bit_and_step x y) in
    rw half (test_bit-bit_and n (x / 2) (y / 2))

pub test_bit-bit_or : (n x y : ℕ) → test_bit (bit_or x y) n ≡ (test_bit x n || test_bit y n)
unfolding test_bit
test_bit-bit_or zero x y = ground (arith, bit_or_step x y)
test_bit-bit_or (suc n) x y =
    let half : bit_or x y / 2 ≡ bit_or (x / 2) (y / 2) = omega (arith, bit_or_step x y) in
    rw half (test_bit-bit_or n (x / 2) (y / 2))

differ-le : (x y : ℕ) → x ≤ 1 → y ≤ 1 → differ x y ≤ 1
differ-le zero y p q = q
differ-le (suc x) zero p q = p
differ-le (suc zero) (suc zero) p q = omega arith
differ-le (suc zero) (suc (suc y)) p q = absurd (omega arith)
differ-le (suc (suc x)) (suc y) p q = absurd (omega arith)

pub test_bit-bit_xor : (n x y : ℕ) → test_bit (bit_xor x y) n ≡ xor (test_bit x n) (test_bit y n)
unfolding test_bit xor
test_bit-bit_xor zero x y = ground (arith, bit_xor_step x y)
test_bit-bit_xor (suc n) x y =
    let half : bit_xor x y / 2 ≡ bit_xor (x / 2) (y / 2) =
      omega (arith, bit_xor_step x y, differ-le (x % 2) (y % 2) (omega arith) (omega arith)) in
    rw half (test_bit-bit_xor n (x / 2) (y / 2))

-- Words of `w` bits with the same bits are equal.
pub test_bit_ext :
    (w x y : ℕ) → x < 2 ^ w → y < 2 ^ w → ((n : ℕ) → n < w → test_bit x n ≡ test_bit y n) → x ≡ y
unfolding test_bit
test_bit_ext zero x y p q h = omega arith
test_bit_ext (suc w) x y p q h =
    let halves : x / 2 ≡ y / 2 =
      test_bit_ext w (x / 2) (y / 2) (omega (arith, pow-suc 2 w)) (omega (arith, pow-suc 2 w))
        (λ n l. h (suc n) (omega arith)) in
    ground (arith, h 0 (omega arith))

halve : (n x : ℕ) → x / 2 ^ suc n ≡ x / 2 / 2 ^ n
halve n x = rw (pow-succ', ← div-div-eq-div-mul) refl

-- Bit `n` by arithmetic.
pub test_bit_lem : (n x : ℕ) → test_bit x n ≡ (x / 2 ^ n % 2 == 1)
unfolding test_bit
test_bit_lem zero x = ground arith
test_bit_lem (suc n) x = rw (test_bit_lem n (x / 2)) (rw halve)

pub bit_and-zero : (n x : ℕ) → x ≤ n → bit_and x 0 ≡ 0
bit_and-zero n zero h = omega (arith, bit_and-bitwise 0 0)
bit_and-zero zero (suc x) h = absurd (omega arith)
bit_and-zero (suc n) (suc x) h =
    omega (arith, bit_and_step (suc x) 0, bit_and-zero n (suc x / 2) (omega arith))

doubled : (x k : ℕ) → bit_and x (k * 2) ≡ bit_and (x / 2) k * 2
doubled x k =
    let half : k * 2 / 2 ≡ k = omega arith in bit_and_step x (k * 2) ∙ rw half (omega arith)

-- A mask moved up by `n` bits.
pub bit_and-shift : (n x m : ℕ) → bit_and x (m * 2 ^ n) ≡ bit_and (x / 2 ^ n) m * 2 ^ n
bit_and-shift zero x m =
    let e : m * 1 ≡ m = omega arith in let d : x / 1 ≡ x = omega arith in rw (e, d) (omega arith)
bit_and-shift (suc n) x m =
    let e : m * 2 ^ suc n ≡ m * 2 ^ n * 2 = omega (arith, ap (λ (t : ℕ). m * t) (pow-suc 2 n)) in
    let k : ℕ = m * 2 ^ n in
    let twice : bit_and x (k * 2) ≡ bit_and (x / 2) k * 2 = doubled x k in
    rw (e, halve n x)
      (twice
        ∙ omega (
          arith,
          bit_and-shift n (x / 2) m,
          pow-suc 2 n,
          ap (λ (t : ℕ). bit_and (x / 2 / 2 ^ n) m * t) (pow-suc 2 n),
        ))

pub bit_and-one : (x : ℕ) → bit_and x 1 ≡ x % 2
bit_and-one x = omega (arith, bit_and_step x 1, bit_and-zero (x / 2) (x / 2) (le_refl _))

-- `x & (1 << n)` by arithmetic.
pub bit_and-pow : (n x : ℕ) → bit_and x (2 ^ n) ≡ x / 2 ^ n % 2 * 2 ^ n
bit_and-pow n x =
    let e : 2 ^ n ≡ 1 * 2 ^ n = omega arith in
    bit_and x (2 ^ n)
    ≡⟨ ap (bit_and x) e ⟩ bit_and x (1 * 2 ^ n)
    ≡⟨ bit_and-shift n x 1 ⟩ bit_and (x / 2 ^ n) 1 * 2 ^ n
    ≡⟨ ap (λ (t : ℕ). t * 2 ^ n) (bit_and-one (x / 2 ^ n)) ⟩ x / 2 ^ n % 2 * 2 ^ n ∎

scaled : (b t : ℕ) → b ≤ 1 → 1 ≤ t → (b * t == 0) ≡ not (b == 1)
scaled zero t p q = ground arith
scaled (suc zero) t p q = ground arith
scaled (suc (suc b)) t p q = absurd (omega arith)

zero-test_bit : (k : ℕ) → test_bit 0 k ≡ false
unfolding test_bit
zero-test_bit zero = refl
zero-test_bit (suc k) = zero-test_bit k

-- `x & (1 << n)` is nonzero exactly when bit `n` of `x` is set.
pub bit_and-pow_test : (n x : ℕ) → (bit_and x (2 ^ n) == 0) ≡ not (test_bit x n)
bit_and-pow_test n x =
    rw (test_bit_lem n x, bit_and-pow n x)
      (scaled (x / 2 ^ n % 2) (2 ^ n) (omega arith) (one-le-pow n 2 (omega arith)))

-- Bit `k` of `1 << n`.
pub test_bit-pow : (k n : ℕ) → test_bit (2 ^ n) k ≡ (k == n)
unfolding test_bit
test_bit-pow zero zero = refl
test_bit-pow zero (suc n) = ground (arith, pow-suc 2 n)
test_bit-pow (suc k) zero = ground (arith, zero-test_bit k)
test_bit-pow (suc k) (suc n) =
    let half : 2 ^ suc n / 2 ≡ 2 ^ n = omega (arith, pow-suc 2 n) in
    rw half (test_bit-pow k n ∙ ground arith)

bit_and-le_fuel : (n x y : ℕ) → x ≤ n → (bit_and x y ≤ x) × (bit_and x y ≤ y)
bit_and-le_fuel n zero y h = omega (arith, bit_and-bitwise 0 y)
bit_and-le_fuel zero (suc x) y h = absurd (omega arith)
bit_and-le_fuel (suc n) (suc x) y h =
    omega (arith, bit_and_step (suc x) y, bit_and-le_fuel n (suc x / 2) (y / 2) (omega arith))

pub bit_and-le : (x y : ℕ) → (bit_and x y ≤ x) × (bit_and x y ≤ y)
bit_and-le x y = bit_and-le_fuel x x y (le_refl x)

pub bit_or-lt : (w x y : ℕ) → x < 2 ^ w → y < 2 ^ w → bit_or x y < 2 ^ w
bit_or-lt zero zero zero p q = le_refl 1
bit_or-lt zero (suc x) y p q = absurd (omega arith)
bit_or-lt zero zero (suc y) p q = absurd (omega arith)
bit_or-lt (suc w) x y p q = omega (
  arith,
  pow-suc 2 w,
  bit_or_step x y,
  bit_or-lt w (x / 2) (y / 2) (omega (arith, pow-suc 2 w)) (omega (arith, pow-suc 2 w)),
)

pub bit_xor-lt : (w x y : ℕ) → x < 2 ^ w → y < 2 ^ w → bit_xor x y < 2 ^ w
bit_xor-lt zero zero zero p q = le_refl 1
bit_xor-lt zero (suc x) y p q = absurd (omega arith)
bit_xor-lt zero zero (suc y) p q = absurd (omega arith)
bit_xor-lt (suc w) x y p q = omega (
  arith,
  pow-suc 2 w,
  bit_xor_step x y,
  differ-le (x % 2) (y % 2) (omega arith) (omega arith),
  bit_xor-lt w (x / 2) (y / 2) (omega (arith, pow-suc 2 w)) (omega (arith, pow-suc 2 w)),
)
