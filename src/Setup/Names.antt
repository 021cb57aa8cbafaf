-- ===== src/Setup/Names.antt =====
-- The names that -B takes.
use mm_regression.Base.{
  ℕ, zero, suc, ◌≡◌, ◌==◌, ◌||◌, arith, ap, List, Option, some, get_elem?, ◌∙◌, refl,
}
use mm_regression.Base.Text.{CString, str_eq}
use mm_regression.Base.Bits.{test_bit, test_bit-bit_or, test_bit-pow}
use mm_regression.Backend.{be}
use mm_regression.Machine.{Kernel, State, ok}
use mm_regression.Setup.{backend_names, bits_of, read_option}

read_as :
    {a name : CString} {b type : ℕ}
    → ◌≡◌ {A = Option (CString × ℕ)} (some (a, b)) (some (name, type))
    → bits_of a backend_names ≡ be b
    → bits_of name backend_names ≡ be type
read_as {a} {name} {b} {type} e p =
    let same_name : a ≡ name = ground arith in
    let same_type : b ≡ type = ground arith in rw (← same_name, ← same_type) p

bits_of-name :
    (l : ℕ) (name : CString) (type : ℕ)
    → get_elem? backend_names l ≡ some (name, type)
    → bits_of name backend_names ≡ be type
unfolding bits_of str_eq
bits_of-name zero name type h = read_as h refl
bits_of-name (suc zero) name type h = read_as h refl
bits_of-name (suc (suc zero)) name type h = read_as h refl
bits_of-name (suc (suc (suc zero))) name type h = read_as h refl
bits_of-name (suc (suc (suc (suc zero)))) name type h = read_as h refl
bits_of-name (suc (suc (suc (suc (suc zero))))) name type h = read_as h refl
bits_of-name (suc (suc (suc (suc (suc (suc zero)))))) name type h = read_as h refl
bits_of-name (suc (suc (suc (suc (suc (suc (suc zero))))))) name type h = read_as h refl
bits_of-name (suc (suc (suc (suc (suc (suc (suc (suc zero)))))))) name type h = read_as h refl
bits_of-name (suc (suc (suc (suc (suc (suc (suc (suc (suc zero))))))))) name type h = read_as h refl
bits_of-name (suc (suc (suc (suc (suc (suc (suc (suc (suc (suc zero)))))))))) name type h =
    read_as h refl
bits_of-name (suc (suc (suc (suc (suc (suc (suc (suc (suc (suc (suc l))))))))))) name type h =
    absurd (ground arith)

-- An option -B with one of the names it takes adds just the type of that name to the chosen ones,
-- so that the types before are kept, and the operations of an earlier -L stay.
pub read_option-adds :
    (kernel : Kernel) (s : State) (ops : List CString) (l : ℕ) (name : CString) (type i : ℕ)
    → get_elem? backend_names l ≡ some (name, type)
    → ((read_option kernel b'B' name ops s).0 ≡ ok ops)
      × (test_bit (read_option kernel b'B' name ops s).1.backend_bitmap i
          ≡ (test_bit s.backend_bitmap i || i == type))
unfolding read_option
read_option-adds kernel s ops l name type i h = (
  refl,
  test_bit-bit_or i s.backend_bitmap (bits_of name backend_names)
      ∙ ap (λ b. test_bit s.backend_bitmap i || b)
          (ap (λ (m : ℕ). test_bit m i) (bits_of-name l name type h) ∙ test_bit-pow i type),
)
