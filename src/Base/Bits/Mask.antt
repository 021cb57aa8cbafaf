-- ===== src/Base/Bits/Mask.antt =====
-- A mask of the lowest bits is a remainder.
use Prim.Native.Nat.{ℕ, zero, suc, ◌+◌, ◌*◌, ◌-◌, ◌/◌, ◌%◌, ◌^◌, ◌<◌, bit_and}
use mathlib.Core.Path.{◌≡◌, ◌∙◌, sym, ap}
use native.Mathlib.Omega.{arith}
use native.Mathlib.Nat.{
  pow-suc, one-le-pow, le_refl, div-add-mod, mod-lt, mod-eq_of_lt, mod-one, add-mul-mod_self_left,
}
use mm_regression.Base.Bits.{bit_and-zero}
use mm_regression.Base.Bits.Step.{bit_and_step}

-- The lowest bit and the `n` bits above it.
split_mod : (n x : ℕ) → x % 2 ^ suc n ≡ x / 2 % 2 ^ n * 2 + x % 2
split_mod n x =
    let w : ℕ = 2 ^ n in
    let q : ℕ = x / 2 / w in
    let low : ℕ = x / 2 % w * 2 + x % 2 in
    let double : 2 ^ suc n ≡ w * 2 = omega (arith, pow-suc 2 n) in
    let whole : x ≡ low + w * 2 * q =
      let product : w * 2 * q ≡ w * q * 2 = ground arith in
      omega (arith, div-add-mod (x / 2) w, product) in
    let small : low < w * 2 = omega (arith, mod-lt (x / 2) (one-le-pow n 2 (omega arith))) in
    ap (λ (t : ℕ). x % t) double
    ∙ (ap (λ (t : ℕ). t % (w * 2)) whole
        ∙ (add-mul-mod_self_left low (w * 2) q ∙ mod-eq_of_lt small))

pub bit_and-mask : (n x : ℕ) → bit_and x (2 ^ n - 1) ≡ x % 2 ^ n
bit_and-mask zero x = bit_and-zero x x (le_refl x) ∙ sym (mod-one x)
bit_and-mask (suc n) x =
    let positive = one-le-pow n 2 (omega arith) in
    let half : (2 ^ suc n - 1) / 2 ≡ 2 ^ n - 1 = omega (arith, pow-suc 2 n, positive) in
    let odd : (2 ^ suc n - 1) % 2 ≡ 1 = omega (arith, pow-suc 2 n, positive) in
    bit_and_step x (2 ^ suc n - 1)
    ∙ rw (half, odd, bit_and-mask n (x / 2), split_mod n x) (omega arith)
