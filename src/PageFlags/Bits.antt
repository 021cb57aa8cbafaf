-- ===== src/PageFlags/Bits.antt =====
-- The flags that a page shows, bit by bit.
use mm_regression.Base.{
  ℕ, zero, suc, ◌<◌, ◌≡◌, refl, sym, ap, ◌∙◌, arith, Bool, true, false, ltb, leb, ◌==◌, not, ◌&&◌,
  ◌||◌, bit_and, Bool-cases, inl, inr,
}
use native.Mathlib.Decide.{dec_lt}
use mm_regression.Base.Bits.{test_bit, test_bit-bit_and, bit_and-pow_test}
use mm_regression.PageFlags.{has, not64, well_known_flags}
use mm_regression.PageFlags.Names
use mm_regression.PageFlags.Names.{bit, bits_compound, hackers_bits}

-- A test on all numbers below a bound.
every : (ℕ → Bool) → ℕ → Bool
every f zero = true
every f (suc n) = f n && every f n

every-lt : (f : ℕ → Bool) (n k : ℕ) → every f n ≡ true → k < n → f k ≡ true
unfolding every
every-lt f zero k h lt = absurd (omega arith)
every-lt f (suc n) k h lt = elim (dec_lt k n) [
  | yes below ↦ every-lt f n k (ground arith) below
  | no here ↦ let e : k ≡ n = omega arith in rw e (ground arith)
]

bool_eq : Bool → Bool → Bool
bool_eq true b = b
bool_eq false b = not b

bool_eq→eq : (a b : Bool) → bool_eq a b ≡ true → a ≡ b
unfolding bool_eq
bool_eq→eq true b h = sym h
bool_eq→eq false b h = ground arith

-- The flags meant for kernel hackers only, and those of compound pages.
abbrev pub is_hacker : ℕ → Bool
is_hacker k = leb 32 k && ltb k 48

abbrev pub is_compound : ℕ → Bool
is_compound k = k == 15 || k == 16

hackers_mask : (k : ℕ) → k < 64 → test_bit (not64 hackers_bits) k ≡ not (is_hacker k)
unfolding every bool_eq test_bit
hackers_mask k lt =
    bool_eq→eq _ _
      (every-lt (λ i. bool_eq (test_bit (not64 hackers_bits) i) (not (is_hacker i))) 64 k refl lt)

compound_mask : (k : ℕ) → k < 64 → test_bit (not64 bits_compound) k ≡ not (is_compound k)
unfolding every bool_eq test_bit
compound_mask k lt =
    bool_eq→eq _ _ (
      every-lt (λ i. bool_eq (test_bit (not64 bits_compound) i) (not (is_compound i))) 64 k refl lt)

compound_bits : (k : ℕ) → k < 64 → test_bit bits_compound k ≡ is_compound k
unfolding every bool_eq test_bit
compound_bits k lt =
    bool_eq→eq _ _ (every-lt (λ i. bool_eq (test_bit bits_compound i) (is_compound i)) 64 k refl lt)

has-bit : (flags n : ℕ) → has flags (bit n) ≡ test_bit flags n
has-bit flags n = ground (arith, bit_and-pow_test n flags)

zero-test_bit : (k : ℕ) → test_bit 0 k ≡ false
unfolding test_bit
zero-test_bit zero = refl
zero-test_bit (suc k) = zero-test_bit k

-- Where no flag of the mask is set, each is clear.
clear_bits :
    (flags mask k : ℕ) → has flags mask ≡ false → (test_bit flags k && test_bit mask k) ≡ false
clear_bits flags mask k h =
    let e : bit_and flags mask ≡ 0 = ground arith in
    sym (test_bit-bit_and k flags mask) ∙ ap (λ x. test_bit x k) e ∙ zero-test_bit k

&&_true : (b : Bool) → (b && true) ≡ b
&&_true true = refl
&&_true false = refl

-- Of the 64 flags `well_known_flags` hides those for kernel hackers, and those of a compound page
-- unless the page is a huge page; every other flag it shows as it is.
pub well_known_flags_lem :
    (flags k : ℕ)
    → k < 64
    → test_bit (well_known_flags flags) k
      ≡ (test_bit flags k && (not (is_hacker k) && (not (is_compound k) || test_bit flags 17)))
unfolding well_known_flags
well_known_flags_lem flags k lt =
    let f = bit_and flags (not64 hackers_bits) in
    let shown : test_bit f k ≡ (test_bit flags k && not (is_hacker k)) =
      test_bit-bit_and k flags (not64 hackers_bits)
      ∙ ap (λ b. test_bit flags k && b) (hackers_mask k lt) in
    let huge : has f (bit Names.huge) ≡ test_bit flags 17 =
      has-bit f 17
      ∙ test_bit-bit_and 17 flags (not64 hackers_bits)
      ∙ ap (λ b. test_bit flags 17 && b) (hackers_mask 17 (omega arith))
      ∙ &&_true (test_bit flags 17) in
    let clear : test_bit (bit_and f (not64 bits_compound)) k
        ≡ (test_bit f k && not (is_compound k)) =
      test_bit-bit_and k f (not64 bits_compound)
      ∙ ap (λ b. test_bit f k && b) (compound_mask k lt) in
    let unset : has f bits_compound ≡ false → (test_bit f k && is_compound k) ≡ false = λ e.
      ap (λ b. test_bit f k && b) (sym (compound_bits k lt)) ∙ clear_bits f bits_compound k e in
    elim (Bool-cases (has f bits_compound)) [
      | inl some_set ↦ elim (Bool-cases (test_bit flags 17)) [
        | inl set ↦
            let e : has f (bit Names.huge) ≡ true = huge ∙ set in rw (some_set, e) (ground arith)
        | inr small ↦
            let e : has f (bit Names.huge) ≡ false = huge ∙ small in rw (some_set, e) (ground arith)
      ]
      | inr no_set ↦ let gone = unset no_set in rw no_set (ground arith)
    ]
