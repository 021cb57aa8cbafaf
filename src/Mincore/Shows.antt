-- ===== src/Mincore/Shows.antt =====
-- mincore is asked about mapped memory, and its answer fits the vector.
use mm_regression.Base.{
  ℕ, ◌+◌, ◌-◌, ◌/◌, ◌≤◌, ◌<◌, ◌≡◌, refl, arith, List, [], ◌∷◌, ◌++◌, Option, true, false, Bool,
  Bool-cases, inl, inr, length, drop, tabulate, length-append, length-drop, length-tabulate, lt→ltb,
  le→ltb_false, ltb, if◌then◌else◌,
}
use mm_regression.Base.Int.{is_zero}
use mm_regression.Base.Text.{CString}
use mm_regression.Abi.{ps}
use mm_regression.Wait.Quiet.{pprintf-IsQuiet}
use mm_regression.Machine.{Call, Kernel, State, M, pure, call}
use mm_regression.Machine.Touched.{
  Has, IsSafe, Grows, Grows-refl, Grows-trans, IsQuiet, Fine, Fine-bind, Fine-quiet, Fine-if,
}
use mm_regression.Mincore.Buffer.Text.{IsText, line_of, length-line_of}
use mm_regression.Mincore.Shown.{show_mincore_map_lem}
use mm_regression.Mincore.{checked_mincore, show_mincore_map, check_and_show, has_percent}
use mm_regression.Mincore.Stages.{Covers, Fine-pure}
use mm_regression.Mincore.Fills.{Fine-present}

module _ (kernel : Kernel) (residency : List Call → ℕ → ℕ) (junk : ℕ → ℕ) where
  -- The vector that comes out is as long as the one before, and nothing is unmapped.
  abbrev pub Shows : (s : State) → (vec : List ℕ) → M (List ℕ) → Type 0
  Shows s vec m =
      Fine kernel s m (λ vec' t. (length vec' ≡ length vec) × Grows kernel s.trace t.trace)

  checked_mincore-Shows :
      (s : State) (addr size : ℕ) (vec : List ℕ)
      → IsSafe kernel s.trace
      → Has kernel addr size s.trace
      → (size + ps - 1) / ps ≤ length vec
      → Shows s vec (checked_mincore kernel residency junk addr size vec)
  unfolding checked_mincore call
  checked_mincore-Shows s addr size vec safe has fits =
      let pages = (size + ps - 1) / ps in
      let room : ltb (length vec) pages ≡ false = le→ltb_false (length vec) pages fits in
      let grows : Grows kernel s.trace (Call.mincore addr size ∷ s.trace) = record {
        mapped = λ x m. m;
        safe = λ m. (has, m);
      } in
      let same : length (tabulate pages 0 (residency s.trace) ++ drop pages vec) ≡ length vec =
        omega (
          arith,
          length-append (tabulate pages 0 (residency s.trace)) (drop pages vec),
          length-tabulate pages 0 (residency s.trace),
          length-drop pages vec,
        ) in
      elim (Bool-cases (is_zero (kernel s.trace (Call.mincore addr size)))) [
        | inl found ↦ record {
          safe = rw (found, room) (has, safe);
          outcome = rw (found, room) (same, grows);
        }
        | inr failed ↦ record { safe = rw failed (has, safe); outcome = rw failed tt }
      ]

  show_mincore_map-IsQuiet :
      (tag : CString) (size : ℕ) (vec : List ℕ)
      → IsText tag
      → length tag ≡ 8
      → has_percent tag ≡ false
      → size / ps ≤ length vec
      → size / ps + 10 < ps
      → IsQuiet kernel (show_mincore_map kernel residency junk tag size vec)
  show_mincore_map-IsQuiet tag size vec text eight plain known short =
      let line = line_of tag (size / ps) vec in
      let fits : ltb (length line) ps ≡ true =
        lt→ltb (length line) ps (omega (arith, length-line_of tag (size / ps) vec eight known)) in
      let shown = λ (s : State).
        show_mincore_map_lem kernel residency junk tag size vec s text (omega (arith, eight)) plain
          known in
      record { at = λ s. rw (shown s, fits) ((pprintf-IsQuiet kernel line []).at s) }

  pub check_and_show-Shows :
      (s : State) (tag : CString) (area : Option ℕ) (size : ℕ) (vec : List ℕ)
      → IsSafe kernel s.trace
      → Covers kernel area size s.trace
      → IsText tag
      → length tag ≡ 8
      → has_percent tag ≡ false
      → (size + ps - 1) / ps ≤ length vec
      → size / ps + 10 < ps
      → Shows s vec (check_and_show kernel residency junk tag area size vec)
  unfolding check_and_show
  check_and_show-Shows s tag area size vec safe c text eight plain fits short =
      Fine-present area _ c.addr c.known (
        Fine-bind _ _ (checked_mincore-Shows s c.addr size vec safe c.has fits) λ vec' t safe_t h.
          let known : size / ps ≤ length vec' = omega (arith, h.0) in
          Fine-bind _ _
            (Fine-quiet (show_mincore_map-IsQuiet tag size vec' text eight plain known short)
              safe_t)
            λ _ u safe_u g. Fine-pure vec' _ safe_u (h.0, Grows-trans h.1 g))

  -- A part that is left out.
  pub skip :
      (s : State) (vec : List ℕ) (b : Bool) (m : M (List ℕ))
      → IsSafe kernel s.trace
      → (b ≡ true → Shows s vec m)
      → Shows s vec (if b then m else pure vec)
  skip s vec b m safe h = Fine-if b h (λ off. Fine-pure vec _ safe (refl, Grows-refl s.trace))
