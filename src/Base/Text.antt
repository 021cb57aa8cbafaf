-- ===== src/Base/Text.antt =====
-- C strings: the bytes before the terminating 0.
use Prim.Native.Nat.{ℕ}
use Prim.Native.Char.{code}
use Prim.Native.String.{String}
use mathlib.Core.Path.{◌≡◌, refl}
use mathlib.Core.Bool.{Bool, true, false, ◌&&◌}
use mathlib.Core.List.{List, [], ◌∷◌}
use native.Mathlib.Omega.{arith}
use mm_regression.Base.Tests.{◌==◌}

abbrev pub CString : Type 0
CString = List ℕ

-- A string literal of the source.
abbrev pub codes : String → CString
codes String.[] = []
codes (String.◌∷◌ c s) = code c ∷ codes s

-- `!strcmp(s, t)`
unfoldable pub str_eq : CString → CString → Bool
str_eq [] [] = true
str_eq [] (d ∷ t) = false
str_eq (c ∷ s) [] = false
str_eq (c ∷ s) (d ∷ t) = c == d && str_eq s t

pub str_eq→eq : (s t : CString) → str_eq s t ≡ true → s ≡ t
unfolding str_eq
str_eq→eq [] [] h = refl
str_eq→eq [] (d ∷ t) h = ground arith
str_eq→eq (c ∷ s) [] h = ground arith
str_eq→eq (c ∷ s) (d ∷ t) h = ground (arith, str_eq→eq s t)

pub str_eq_refl : (s : CString) → str_eq s s ≡ true
unfolding str_eq
str_eq_refl [] = refl
str_eq_refl (c ∷ s) = ground (arith, str_eq_refl s)

pub str_eq_euclid : (s t u : CString) → str_eq s u ≡ true → str_eq t u ≡ true → str_eq s t ≡ true
str_eq_euclid s t u p q = rw (str_eq→eq s u p, str_eq→eq t u q) (str_eq_refl u)
