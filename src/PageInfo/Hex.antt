-- ===== src/PageInfo/Hex.antt =====
-- What is printed as a hexadecimal number is read back.
use mm_regression.Base.{
  ℕ, zero, suc, ◌+◌, ◌*◌, ◌/◌, ◌%◌, ◌^◌, ◌<◌, ◌≡◌, ◌∙◌, ap, arith, [], ◌∷◌, true, ltb, Bool-cases,
  inl, inr,
}
use native.Mathlib.Nat.{pow-suc}
use mm_regression.Base.Text.{CString, codes}
use mm_regression.Libc.{digit, number, strtoul, saturate}
use mm_regression.Libc.Numbers.{number-digit, number-end, strtoul-hex}
use mm_regression.PageInfo.{hex_digit, hex_digits, print_hex}

digit-hex_digit : (d : ℕ) → d < 16 → digit (hex_digit d) ≡ d
digit-hex_digit d h = elim (Bool-cases (ltb d 10)) [
  | inl decimal ↦ rw decimal (ground arith)
  | inr letter ↦ rw letter (ground arith)
]

number-hex_digit :
    (acc d : ℕ) (rest : CString)
    → d < 16
    → number 16 acc (hex_digit d ∷ rest) ≡ number 16 (acc * 16 + d) rest
number-hex_digit acc d rest h =
    let same = digit-hex_digit d h in
    number-digit 16 acc (hex_digit d) rest (omega (arith, same))
    ∙ ap (λ (t : ℕ). number 16 (acc * 16 + t) rest) same

number_acc : (rest : CString) {m n : ℕ} → m ≡ n → number 16 m rest ≡ number 16 n rest
number_acc rest e = ap (λ (t : ℕ). number 16 t rest) e

number-hex_digits :
    (fuel n : ℕ) (rest : CString)
    → n < 16 ^ suc fuel
    → number 16 0 (hex_digits (suc fuel) n rest) ≡ number 16 n rest
unfolding hex_digits
number-hex_digits zero n rest h =
    let small : ltb n 16 ≡ true = ground arith in
    rw small (number-hex_digit 0 n rest (omega arith) ∙ number_acc rest (omega arith))
number-hex_digits (suc fuel) n rest h = elim (Bool-cases (ltb n 16)) [
  | inl small ↦ rw small (number-hex_digit 0 n rest (ground arith) ∙ number_acc rest (omega arith))
  | inr large ↦ rw large (
      number-hex_digits fuel (n / 16) (hex_digit (n % 16) ∷ rest)
        (omega (arith, pow-suc 16 (suc fuel)))
      ∙ (number-hex_digit (n / 16) (n % 16) rest (omega arith) ∙ number_acc rest (omega arith)))
]

saturate_small : (n : ℕ) → n < 2 ^ 64 → saturate n ≡ n
saturate_small n h = ground arith

-- The number that the digits say, and those behind them that belong to it.
strtoul-print_hex-rest :
    (n m : ℕ) (rest : CString)
    → n < 2 ^ 64
    → m < 2 ^ 64
    → number 16 n rest ≡ m
    → strtoul (print_hex n rest) ≡ m
unfolding print_hex
strtoul-print_hex-rest n m rest h k e =
    strtoul-hex (hex_digits 16 n rest)
    ∙ rw (number-hex_digits 15 n rest (omega arith), e) (saturate_small m k)

pub strtoul-print_hex : (n : ℕ) → n < 2 ^ 64 → strtoul (print_hex n (codes "\n")) ≡ n
strtoul-print_hex n h =
    strtoul-print_hex-rest n n (codes "\n") h h (number-end 16 n _ [] (omega arith))

pub strtoul-print_hex_page :
    (n : ℕ) → n * 4096 < 2 ^ 64 → strtoul (print_hex n (codes "000\n")) ≡ n * 4096
strtoul-print_hex_page n h =
    let zeros : number 16 n (codes "000\n")
        ≡ number 16 (((n * 16 + 0) * 16 + 0) * 16 + 0) (codes "\n") =
      number-hex_digit n 0 (codes "00\n") (omega arith)
      ∙ (number-hex_digit (n * 16 + 0) 0 (codes "0\n") (omega arith)
          ∙ number-hex_digit ((n * 16 + 0) * 16 + 0) 0 (codes "\n") (omega arith)) in
    strtoul-print_hex-rest n (n * 4096) (codes "000\n") (omega arith) h
      (zeros ∙ (number-end 16 _ _ [] (omega arith) ∙ omega arith))
