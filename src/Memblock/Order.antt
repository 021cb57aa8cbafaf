-- ===== src/Memblock/Order.antt =====
-- `get_memblk_order` finds the order of a size that is a power of two.
use mm_regression.Base.{ℕ, zero, suc, ◌+◌, ◌*◌, ◌/◌, ◌^◌, ◌<◌, ◌≡◌, ap, arith, false, ◌==◌}
use mathlib.Core.Path.{subst}
use native.Mathlib.Nat.{pow-suc, pow-succ', mul-div_cancel, one-le-pow}
use mm_regression.Memblock.{order_loop, order_of}

pow-add : (i d : ℕ) → 2 ^ (i + d) ≡ 2 ^ d * 2 ^ i
pow-add i zero = let e : i + 0 ≡ i = omega arith in rw e (omega arith)
pow-add i (suc d) =
    let e : i + suc d ≡ suc (i + d) = omega arith in
    rw (e, pow-succ', pow-succ' 2 d) (omega (arith, ap (λ (t : ℕ). 2 * t) (pow-add i d)))

-- `2 ^ (i + d)` shifted down by `i`.
shifted : (i d : ℕ) → 2 ^ (i + d) / 2 ^ i ≡ 2 ^ d
shifted i d = rw pow-add (mul-div_cancel (2 ^ d) (one-le-pow i 2 (omega arith)))

order_loop-pow : (left i d : ℕ) → d < left → order_loop left i (2 ^ (i + d)) ≡ i + d
unfolding order_loop
order_loop-pow zero i d h = absurd (omega arith)
order_loop-pow (suc left) i zero h = rw (shifted i 0) (omega arith)
order_loop-pow (suc left) i (suc d) h =
    let more : (2 ^ suc d == 1) ≡ false =
      ground (arith, pow-suc 2 d, one-le-pow d 2 (omega arith)) in
    let e : i + suc d ≡ i + 1 + d = omega arith in
    rw (shifted i (suc d), more) (rw e (order_loop-pow left (i + 1) d (omega arith)))

-- The order of a block size that is a power of two below 2 ^ 64 is its exponent.
pub order_of-pow : (k : ℕ) → k < 64 → order_of (2 ^ k) ≡ k
unfolding order_of
order_of-pow k h =
    let e : 0 + k ≡ k = omega arith in
    subst (λ t. order_loop 64 0 (2 ^ t) ≡ t) e (order_loop-pow 64 0 k h)
