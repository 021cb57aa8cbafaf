-- ===== src/Hugepage/Pattern.antt =====
-- What is written is what is read.
use mm_regression.Base.{
  some, lt→ltb, ℕ, zero, suc, ◌+◌, ◌*◌, ◌^◌, ◌≤◌, ◌<◌, ◌≡◌, ◌≢◌, ◌⊎◌, ◌↔◌, refl, ap, ◌-◌, ◌∙◌,
  arith, inl, inr, false, ◌==◌, Bool-cases, if◌then◌else◌,
}
use mm_regression.Base.Int.{ℤ, pos, negsuc}
use mm_regression.Hugepage.{
  Memory, byte_address, expected, write_bytes, write_pages, write_hugepage, read_bytes, read_pages,
  fits_int, read_hugepage,
}
use mm_regression.Hugepage.Bytes.{
  HoldsPattern, first_or_later, write_bytes-outside, write_bytes-inside, read_bytes_iff,
}

module _ (hps addr : ℕ) where
  page_fits : (i left : ℕ) → i * hps + hps ≤ (i + suc left) * hps
  page_fits i left =
      let e : (i + suc left) * hps ≡ i * hps + hps + left * hps = ground arith in omega (arith, e)

  -- A page ends before the next begins.
  next_page : (i l : ℕ) → i < l → i * hps + hps ≤ l * hps
  next_page i l p =
      let e : l ≡ i + suc (l - suc i) = omega arith in
      omega (arith, page_fits i (l - suc i), ap (λ (t : ℕ). t * hps) e)

  head_lem :
      (i : ℕ)
      → addr + (i * hps + hps) ≤ 2 ^ 64
      → 0 < hps
      → byte_address hps addr i 0 ≡ addr + i * hps
  head_lem i small p = ground arith

  module _ (avoid_addr : ℕ) where
    write_pages-before :
        (left i l k : ℕ) (mem : Memory)
        → addr + (i + left) * hps ≤ 2 ^ 64
        → l < i
        → k < hps
        → write_pages hps addr avoid_addr left i mem (addr + (l * hps + k))
          ≡ mem (addr + (l * hps + k))
    unfolding write_pages
    write_pages-before zero i l k mem small p q = refl
    write_pages-before (suc left) i l k mem small p q =
        let one = write_bytes hps addr i hps 0 mem in
        elim (Bool-cases (byte_address hps addr i 0 == avoid_addr)) [
          | inl avoided ↦
              rw avoided (write_pages-before left (i + 1) l k mem (omega arith) (omega arith) q)
          | inr hit ↦ rw hit (
              write_pages-before left (i + 1) l k one (omega arith) (omega arith) q
              ∙ write_bytes-outside hps addr i hps 0 mem (addr + (l * hps + k))
                  (omega (arith, page_fits i left)) (inl (omega (arith, next_page l i p))))
        ]

    write_pages-at :
        (left i l k : ℕ) (mem : Memory)
        → addr + (i + left) * hps ≤ 2 ^ 64
        → i ≤ l
        → l < i + left
        → k < hps
        → write_pages hps addr avoid_addr left i mem (addr + (l * hps + k))
          ≡ (if addr + l * hps == avoid_addr then mem (addr + (l * hps + k)) else expected l k)
    unfolding write_pages
    write_pages-at zero i l k mem small p p' q = absurd (omega arith)
    write_pages-at (suc left) i l k mem small p p' q =
        let one = write_bytes hps addr i hps 0 mem in
        let fits = page_fits i left in
        let head : byte_address hps addr i 0 ≡ addr + i * hps =
          head_lem i (omega (arith, fits)) (omega arith) in
        elim (first_or_later i l p) [
          | inl same ↦ elim (Bool-cases (addr + i * hps == avoid_addr)) [
            | inl avoided ↦
                rw (← same, head, avoided)
                  (write_pages-before left (i + 1) i k mem (omega arith) (omega arith) q)
            | inr hit ↦
                rw (← same, head, hit)
                  (write_pages-before left (i + 1) i k one (omega arith) (omega arith) q
                    ∙ write_bytes-inside hps addr i hps 0 k mem (omega (arith, fits)) (omega arith)
                        (omega arith))
          ]
          | inr later ↦ elim (Bool-cases (byte_address hps addr i 0 == avoid_addr)) [
            | inl avoided ↦
                rw avoided (write_pages-at left (i + 1) l k mem (omega arith) later (omega arith) q)
            | inr hit ↦ rw hit (
                write_pages-at left (i + 1) l k one (omega arith) later (omega arith) q
                ∙ ap (λ v. if addr + l * hps == avoid_addr then v else expected l k)
                    (write_bytes-outside hps addr i hps 0 mem (addr + (l * hps + k))
                      (omega (arith, fits)) (inr (omega (arith, next_page i l (omega arith))))))
          ]
        ]

    -- The page `l` holds the pattern unless it is the one to avoid.
    abbrev pub IsIntact : Memory → ℕ → Type 0
    IsIntact mem l = addr + l * hps ≢ avoid_addr → HoldsPattern hps addr mem l

    -- What the body of the outer loop makes of `ret`, which is 0 before it.
    abbrev page_result : ℕ → Memory → ℤ
    page_result i mem =
        if byte_address hps addr i 0 == avoid_addr
        then pos 0
        else if read_bytes hps addr i hps 0 mem
        then pos 0
        else negsuc 0

    page_cases :
        (i : ℕ) (mem : Memory)
        → addr + (i * hps + hps) ≤ 2 ^ 64
        → 0 < hps
        → ((page_result i mem ≡ pos 0) × IsIntact mem i)
          ⊎ ((page_result i mem ≡ negsuc 0) × (IsIntact mem i → ⊥))
    page_cases i mem small positive =
        let head : byte_address hps addr i 0 ≡ addr + i * hps = head_lem i small positive in
        let (good, bad) = read_bytes_iff hps addr i hps 0 mem (omega arith) in
        elim (Bool-cases (addr + i * hps == avoid_addr)) [
          | inl avoided ↦ inl (rw (head, avoided) refl, λ ne. absurd (ne (ground arith)))
          | inr hit ↦ elim (Bool-cases (read_bytes hps addr i hps 0 mem)) [
            | inl all ↦
                inl (rw (head, hit, all) refl, λ ne k q. good all k (omega arith) (omega arith))
            | inr some_differ ↦ inr (
              rw (head, hit, some_differ) refl,
              λ h. let all = bad (λ k p q. h (λ e. ground arith) k (omega arith)) in ground arith,
            )
          ]
        ]

    read_pages-failed :
        (left i : ℕ) (mem : Memory)
        → read_pages hps addr avoid_addr left i (negsuc 0) mem ≡ negsuc 0
    unfolding read_pages
    read_pages-failed zero i mem = refl
    read_pages-failed (suc left) i mem =
        let same : (if byte_address hps addr i 0 == avoid_addr
              then negsuc 0
              else if read_bytes hps addr i hps 0 mem
              then negsuc 0
              else negsuc 0)
            ≡ negsuc 0 =
          ground arith in
        rw same (read_pages-failed left (i + 1) mem)

    read_pages_iff :
        (left i : ℕ) (mem : Memory)
        → addr + (i + left) * hps ≤ 2 ^ 64
        → 0 < hps
        → (read_pages hps addr avoid_addr left i (pos 0) mem ≡ pos 0)
          ↔ ((l : ℕ) → i ≤ l → l < i + left → IsIntact mem l)
    unfolding read_pages
    read_pages_iff zero i mem small positive = (λ e l p q. absurd (omega arith), λ h. refl)
    read_pages_iff (suc left) i mem small positive =
        let (to, from) = read_pages_iff left (i + 1) mem (omega arith) positive in
        elim (page_cases i mem (omega (arith, page_fits i left)) positive) [
          | inl (e, intact) ↦ rw e (
            λ h l p q. elim (first_or_later i l p) [
              | inl same ↦ rw (← same) intact
              | inr later ↦ to h l later (omega arith)
            ],
            λ h. from (λ l p q. h l (omega arith) (omega arith)),
          )
          | inr (e, broken) ↦ rw e (
            λ h. let failed = read_pages-failed left (i + 1) mem in absurd (ground arith),
            λ h. absurd (broken (h i (omega arith) (omega arith))),
          )
        ]

-- The loops of `read_hugepage` end with 0 just when every page of the range but the one to avoid
-- holds the pattern.
read_from_iff :
    (hps addr avoid_addr nr : ℕ) (mem : Memory)
    → addr + nr * hps ≤ 2 ^ 64
    → 0 < hps
    → (read_pages hps addr avoid_addr nr 0 (pos 0) mem ≡ pos 0)
      ↔ ((l : ℕ) → l < nr → IsIntact hps addr avoid_addr mem l)
read_from_iff hps addr avoid_addr nr mem small positive =
    let first : 0 + nr ≡ nr = omega arith in
    let (to, from) = read_pages_iff hps addr avoid_addr nr 0 mem (rw first small) positive in
    (λ h l q. to h l (omega arith) (omega arith), λ h. from (λ l p q. h l (omega arith)))

-- Where the range lies in the address space, and its pages and the bytes of one are fewer than 2^31
-- in sum, `write_hugepage` writes the range, and what it has written `read_hugepage` accepts. Each
-- byte of the range is then the pattern's, but that the page to avoid keeps its bytes.
pub read_hugepage-write_hugepage :
    (hps addr avoid_addr nr : ℕ) (mem : Memory)
    → addr + nr * hps ≤ 2 ^ 64
    → 0 < hps
    → nr + hps < 2 ^ 31
    → (written : Memory) × (write_hugepage hps addr nr avoid_addr mem ≡ some written)
      × (read_hugepage hps addr nr avoid_addr written ≡ some (pos 0))
      × ((l k : ℕ)
          → l < nr
          → k < hps
          → written (addr + (l * hps + k))
            ≡ (if addr + l * hps == avoid_addr then mem (addr + (l * hps + k)) else expected l k))
unfolding write_hugepage read_hugepage fits_int
read_hugepage-write_hugepage hps addr avoid_addr nr mem small positive int =
    let first : 0 + nr ≡ nr = omega arith in
    let fits = lt→ltb (nr + hps) (2 ^ 31) int in
    let written = write_pages hps addr avoid_addr nr 0 mem in
    let at : (l k : ℕ)
        → l < nr
        → k < hps
        → written (addr + (l * hps + k))
          ≡ (if addr + l * hps == avoid_addr then mem (addr + (l * hps + k)) else expected l k) =
      λ l k q p.
        write_pages-at hps addr avoid_addr nr 0 l k mem (rw first small) (omega arith) (omega arith)
          p in
    let intact : (l : ℕ) → l < nr → IsIntact hps addr avoid_addr written l = λ l q ne k p.
      let other : (addr + l * hps == avoid_addr) ≡ false = ground arith in
      at l k q p ∙ rw other refl in
    let accepted = (read_from_iff hps addr avoid_addr nr written small positive).1 intact in
    (written, rw fits refl, rw (fits, accepted) refl, at)
