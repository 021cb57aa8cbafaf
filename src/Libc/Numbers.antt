-- ===== src/Libc/Numbers.antt =====
-- How `strtoul` reads the digits of a number.
use mm_regression.Base.{
  ℕ, ◌+◌, ◌*◌, ◌^◌, ◌<◌, ◌≡◌, ◌==◌, refl, arith, [], ◌∷◌, Bool-cases, inl, inr,
}
use mm_regression.Base.Text.{CString}
use mm_regression.Libc.{digit, number, unsigned, signed, skip_spaces, strtoul, saturate}

pub number-digit :
    (base acc c : ℕ) (s : CString)
    → digit c < base
    → number base acc (c ∷ s) ≡ number base (acc * base + digit c) s
unfolding number
number-digit base acc c s h = ground arith

-- The end of the text, or a character that is no digit, ends the number.
pub number-end : (base acc c : ℕ) (s : CString) → base < digit c + 1 → number base acc (c ∷ s) ≡ acc
unfolding number
number-end base acc c s h = ground arith

pub strtoul-hex : (s : CString) → strtoul (b'0' ∷ b'x' ∷ s) ≡ saturate (number 16 0 s)
unfolding strtoul signed unsigned skip_spaces
strtoul-hex s = refl

saturate-lt : (n : ℕ) → saturate n < 2 ^ 64
saturate-lt n = ground arith

signed-lt : (s : CString) → signed s < 2 ^ 64
unfolding signed
signed-lt [] = omega arith
signed-lt (c ∷ s) = elim (Bool-cases (c == b'-')) [
  | inl minus ↦ rw minus (omega arith)
  | inr other ↦ rw other (elim (Bool-cases (c == b'+')) [
    | inl plus ↦ rw plus (saturate-lt (unsigned s))
    | inr digits ↦ rw digits (saturate-lt (unsigned (c ∷ s)))
  ])
]

-- The result is an `unsigned long`.
pub strtoul-lt : (s : CString) → strtoul s < 2 ^ 64
unfolding strtoul
strtoul-lt s = signed-lt (skip_spaces s)
