-- ===== src/Mincore/Shown.antt =====
-- What the controlling script is shown.
use mm_regression.Base.{
  zero, suc, ◌∷◌, ◌++◌, ◌==◌, map, take, arith, false, ℕ, ◌/◌, ◌≤◌, ◌≡◌, refl, List, [], Bool-cases,
  inl, inr, ltb, length, if◌then◌else◌,
}
use mm_regression.Base.Text.{CString, codes}
use mm_regression.Abi.{ps}
use mm_regression.Wait.{pprintf}
use mm_regression.Machine.{Call, Kernel, State, fault}
use mm_regression.Mincore.Buffer.Text.{IsText, line_of, map_text-eq-line_of}
use mm_regression.Mincore.Buffer.{mark}
use mm_regression.Mincore.{show_mincore_map, has_percent}

has_percent-append :
    (s t : CString) → has_percent s ≡ false → has_percent t ≡ false → has_percent (s ++ t) ≡ false
unfolding has_percent
has_percent-append [] t h k = k
has_percent-append (c ∷ s) t h k = elim (Bool-cases (c == b'%')) [
  | inl percent ↦ absurd (ground arith)
  | inr other ↦ let plain = has_percent-append s t (rw other at h) k in rw other plain
]

has_percent-marks : (n : ℕ) (vec : List ℕ) → has_percent (map mark (take n vec)) ≡ false
unfolding has_percent
has_percent-marks zero vec = refl
has_percent-marks (suc n) [] = refl
has_percent-marks (suc n) (v ∷ vec) = let rest = has_percent-marks n vec in ground (arith, rest)

-- The rest of a line holds no `%`.
has_percent-line_of :
    (tag : CString) (pages : ℕ) (vec : List ℕ)
    → has_percent tag ≡ false
    → has_percent (line_of tag pages vec) ≡ false
unfolding line_of has_percent
has_percent-line_of tag pages vec h = elim (Bool-cases (length tag == 8)) [
  | inl eight ↦ rw eight (
      has_percent-append tag _ h (
        has_percent-append (map mark (take pages vec)) (codes "\n") (has_percent-marks pages vec)
          refl))
  | inr other ↦ rw other (has_percent-append tag (codes ":") h refl)
]

pub show_mincore_map_lem :
    (kernel : Kernel) (residency : List Call → ℕ → ℕ) (junk : ℕ → ℕ) (tag : CString) (size : ℕ)
    (vec : List ℕ) (s : State)
    → IsText tag
    → length tag ≤ 8
    → has_percent tag ≡ false
    → size / ps ≤ length vec
    → show_mincore_map kernel residency junk tag size vec s ≡ (
        if ltb (length (line_of tag (size / ps) vec)) ps
        then pprintf kernel (line_of tag (size / ps) vec) [] s
        else (fault, s))
unfolding show_mincore_map
show_mincore_map_lem kernel residency junk tag size vec s text fits plain known =
    let literal = has_percent-line_of tag (size / ps) vec plain in
    elim (Bool-cases (ltb (length (line_of tag (size / ps) vec)) ps)) [
      | inl short ↦ rw (map_text-eq-line_of junk tag size vec text fits known, literal, short) refl
      | inr long ↦ rw (map_text-eq-line_of junk tag size vec text fits known, literal, long) refl
    ]
