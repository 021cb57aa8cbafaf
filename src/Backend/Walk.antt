-- ===== src/Backend/Walk.antt =====
-- `find_next_backend` and `for_each_backend` visit the chosen memory types, each once, in order.
use mm_regression.Base.{
  ℕ, zero, suc, ◌+◌, ◌-◌, ◌≤◌, ◌<◌, ◌≡◌, refl, ap, ◌∙◌, List, [], ◌∷◌, true, false, not, arith, ltb,
  ◌==◌, bit_and, Bool-cases, inl, inr, if◌then◌else◌, le→ltb_false, lt→ltb,
}
use native.Mathlib.Decide.{dec_lt}
use mm_regression.Base.Bits.{test_bit, bit_and-pow_test}
use mm_regression.Backend.{
  be, nr_backend_types, find_loop, find_next_backend, each_from, for_each_backend,
}

module _ (bitmap : ℕ) where
  -- The chosen types among the `left` ones from `i` on.
  unfoldable pub chosen : (left i : ℕ) → List ℕ
  chosen zero i = []
  chosen (suc left) i = if test_bit bitmap i then i ∷ chosen left (i + 1) else chosen left (i + 1)

  pub record IsNext (i r : ℕ) : Type 0 where
    pub from : i ≤ r
    pub within : r ≤ nr_backend_types
    pub skipped : (k : ℕ) → i ≤ k → k < r → test_bit bitmap k ≡ false
    pub stops : r < nr_backend_types → test_bit bitmap r ≡ true

  find_loop_set : (left i : ℕ) → test_bit bitmap i ≡ true → find_loop bitmap (suc left) i ≡ i
  unfolding find_loop
  find_loop_set left i h =
      let e : (bit_and bitmap (be i) == 0) ≡ false = bit_and-pow_test i bitmap ∙ ap not h in
      rw (e, find_loop)

  find_loop_clear :
      (left i : ℕ)
      → test_bit bitmap i ≡ false
      → find_loop bitmap (suc left) i ≡ find_loop bitmap left (i + 1)
  unfolding find_loop
  find_loop_clear left i h =
      let e : (bit_and bitmap (be i) == 0) ≡ true = bit_and-pow_test i bitmap ∙ ap not h in
      rw (e, find_loop)

  skip_one :
      {i r : ℕ} (k : ℕ)
      → test_bit bitmap i ≡ false
      → (i + 1 ≤ k → k < r → test_bit bitmap k ≡ false)
      → i ≤ k
      → k < r
      → test_bit bitmap k ≡ false
  skip_one {i} k clear rest p q = elim (dec_lt i k) [
    | yes more ↦ rest (omega arith) q
    | no same ↦ let e : k ≡ i = omega arith in rw e clear
  ]

  find_loop-IsNext : (left i : ℕ) → i + left ≡ nr_backend_types → IsNext i (find_loop bitmap left i)
  unfolding find_loop
  find_loop-IsNext zero i e = record {
    from = omega arith;
    within = omega arith;
    skipped = λ k p q. absurd (omega arith);
    stops = λ p. absurd (omega arith);
  }
  find_loop-IsNext (suc left) i e = elim (Bool-cases (test_bit bitmap i)) [
    | inl chosen_here ↦ rw (find_loop_set left i chosen_here) (record {
      from = omega arith;
      within = omega arith;
      skipped = λ k p q. absurd (omega arith);
      stops = λ p. chosen_here;
    })
    | inr clear ↦
        let rest = find_loop-IsNext left (i + 1) (omega arith) in
        rw (find_loop_clear left i clear) (record {
          from = omega (arith, rest.from);
          within = rest.within;
          skipped = λ k p q. skip_one k clear (rest.skipped k) p q;
          stops = rest.stops;
        })
  ]

  -- From a type `i` in range `find_next_backend` finds the first chosen one at or after `i`, or
  -- NR_BACKEND_TYPES where none is left.
  pub find_next_backend-IsNext :
      (i : ℕ) → i ≤ nr_backend_types → IsNext i (find_next_backend bitmap i)
  unfolding find_next_backend
  find_next_backend-IsNext i h = find_loop-IsNext (nr_backend_types - i) i (omega arith)

  each_from-suc :
      (fuel i : ℕ)
      → i < nr_backend_types
      → each_from bitmap (suc fuel) i
        ≡ i ∷ each_from bitmap fuel (find_loop bitmap (nr_backend_types - (i + 1)) (i + 1))
  unfolding each_from find_next_backend
  each_from-suc fuel i h =
      let in_range : ltb i nr_backend_types ≡ true = lt→ltb _ _ h in rw (in_range, each_from)

  each_from-eq-chosen :
      (left i fuel : ℕ)
      → i + left ≡ nr_backend_types
      → left < fuel
      → each_from bitmap fuel (find_loop bitmap left i) ≡ chosen left i
  unfolding find_loop each_from chosen find_next_backend
  each_from-eq-chosen left i zero e f = absurd (omega arith)
  each_from-eq-chosen zero i (suc fuel) e f =
      let out : ltb i nr_backend_types ≡ false = le→ltb_false _ _ (omega arith) in
      rw (out, each_from)
  each_from-eq-chosen (suc left) i (suc fuel) e f = elim (Bool-cases (test_bit bitmap i)) [
    | inl here ↦
        let next : nr_backend_types - (i + 1) ≡ left = omega arith in
        let rest = each_from-eq-chosen left (i + 1) fuel (omega arith) (omega arith) in
        rw here (
          ap (each_from bitmap (suc fuel)) (find_loop_set left i here)
          ∙ each_from-suc fuel i (omega arith)
          ∙ ap (λ k. i ∷ each_from bitmap fuel (find_loop bitmap k (i + 1))) next
          ∙ ap (λ t. i ∷ t) rest)
    | inr clear ↦
        rw (find_loop_clear left i clear, clear)
          (each_from-eq-chosen left (i + 1) (suc fuel) (omega arith) (omega arith))
  ]

  -- The body of `for_each_backend` runs for the types whose bit is set, each once, in increasing
  -- order.
  pub for_each_backend-eq-chosen : for_each_backend bitmap ≡ chosen nr_backend_types 0
  unfolding for_each_backend find_next_backend
  for_each_backend-eq-chosen = each_from-eq-chosen 11 0 12 refl (omega arith)
