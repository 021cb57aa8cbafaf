-- ===== src/TestCore/Sizes.antt =====
-- Which sizes of huge pages are valid.
use mm_regression.Base.{
  ℕ, zero, suc, ◌≤◌, ◌≡◌, ◌↔◌, ◌⊎◌, refl, arith, List, [], ◌∷◌, some, true, false, ltb, ◌==◌,
  length, get_elem?, inl, inr, Bool-cases,
}
use mm_regression.Base.Text.{CString}
use mm_regression.Machine.{State, ok, exit}
use mm_regression.TestCore.{
  is_size, size_in_name, sizes_in, get_hugepage_sizes, find_size, validate_hugepage_size,
}

-- A name in the directory says the size.
abbrev pub IsListed : ℕ → List CString → Type 0
IsListed hpsize names =
    (i : ℕ) × (name : CString) × (get_elem? names i ≡ some name)
    × (is_size name ≡ true)
    × (size_in_name name ≡ hpsize)

find_size-IsListed :
    (hpsize : ℕ) (names : List CString)
    → find_size hpsize (sizes_in names) ≡ true
    → IsListed hpsize names
unfolding find_size sizes_in
find_size-IsListed hpsize [] h = absurd (ground arith)
find_size-IsListed hpsize (name ∷ names) h = elim (Bool-cases (is_size name)) [
  | inl sized ↦ elim (Bool-cases (hpsize == size_in_name name)) [
    | inl same ↦ (0, name, refl, sized, ground arith)
    | inr other ↦
        let (i, named, at, sized_at, same_at) = find_size-IsListed hpsize names (ground arith) in
        (suc i, named, at, sized_at, same_at)
  ]
  | inr skipped ↦
      let (i, named, at, sized_at, same_at) = find_size-IsListed hpsize names (ground arith) in
      (suc i, named, at, sized_at, same_at)
]

IsListed-find_size :
    (hpsize : ℕ) (names : List CString) (i : ℕ) (name : CString)
    → get_elem? names i ≡ some name
    → is_size name ≡ true
    → size_in_name name ≡ hpsize
    → find_size hpsize (sizes_in names) ≡ true
unfolding find_size sizes_in
IsListed-find_size hpsize [] i name e sized same = absurd (ground arith)
IsListed-find_size hpsize (n ∷ names) zero name e sized same =
    let here : n ≡ name = ground arith in rw (here, sized, same) (ground arith)
IsListed-find_size hpsize (n ∷ names) (suc i) name e sized same =
    let rest = IsListed-find_size hpsize names i name e sized same in
    elim (Bool-cases (is_size n)) [
      | inl sized_n ↦ rw sized_n (ground (arith, rest))
      | inr skipped ↦ rw skipped rest
    ]

-- With at most 16 sizes in the directory, `validate_hugepage_size` returns just for a size that a
-- name in it says, and for any other it ends the process.
pub validate_hugepage_size_iff :
    (names : List CString) (hpsize : ℕ) (s : State)
    → length (get_hugepage_sizes (some names)) ≤ 16
    → (((validate_hugepage_size (some names) hpsize s).0 ≡ ok tt) ↔ IsListed hpsize names)
      × (((validate_hugepage_size (some names) hpsize s).0 ≡ ok tt)
          ⊎ ((validate_hugepage_size (some names) hpsize s).0 ≡ exit))
unfolding validate_hugepage_size get_hugepage_sizes
validate_hugepage_size_iff names hpsize s few =
    let fits : ltb 16 (length (sizes_in names)) ≡ false = ground arith in
    elim (Bool-cases (find_size hpsize (sizes_in names))) [
      | inl found ↦ (
        (λ e. find_size-IsListed hpsize names found, λ listed. rw (fits, found) refl),
        inl (rw (fits, found) refl),
      )
      | inr missing ↦ (
        (
          rw (fits, missing) (λ e. absurd (ground arith)),
          λ (i, name, e, sized, same).
              let found = IsListed-find_size hpsize names i name e sized same in
              absurd (ground arith),
        ),
        inr (rw (fits, missing) refl),
      )
    ]
