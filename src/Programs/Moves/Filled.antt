-- ===== src/Programs/Moves/Filled.antt =====
-- What move_pages is given.
use mm_regression.Base.{
  ℕ, zero, suc, ◌+◌, ◌*◌, ◌/◌, ◌^◌, ◌≤◌, ◌<◌, ◌≡◌, refl, ap, ◌∙◌, arith, List, ◌∷◌, Option, none,
  some, Bool, true, false, length, set, replicate, get_elem?, length-set, length-replicate,
  get_elem?-set_self, get_elem?-set_ne, lt→ltb,
}
use mathlib.Core.Path.{subst}
use native.Mathlib.Decide.{dec_lt}
use native.Mathlib.Nat.{mul-le-mul_left}
use mm_regression.Abi.{ps, addr_input}
use mm_regression.Machine.{Call, Kernel, ok}
use mm_regression.Machine.Bare.{emit}
use mm_regression.Programs.Moves.{
  Arrays, new_arrays, set_node, fill_one, fill, int_product, move_pct, move_all,
}

-- An array of `n` elements of which the first `i` are known, and the others indeterminate.
pub record Half (n i : ℕ) (value : ℕ → ℕ) (xs : List (Option ℕ)) : Type 0 where
  pub long : length xs ≡ n
  pub filled : (j : ℕ) → j < i → get_elem? xs j ≡ some (some (value j))
  pub left : (j : ℕ) → i ≤ j → j < n → get_elem? xs j ≡ some none

get_elem?-replicate : (n j : ℕ) → j < n → get_elem? (replicate {A = Option ℕ} n none) j ≡ some none
get_elem?-replicate zero j h = absurd (omega arith)
get_elem?-replicate (suc n) zero h = refl
get_elem?-replicate (suc n) (suc j) h = get_elem?-replicate n j (omega arith)

Half-new : (n : ℕ) (value : ℕ → ℕ) → Half n 0 value (replicate n none)
Half-new n value = record {
  long = length-replicate n none;
  filled = λ j h. absurd (omega arith);
  left = λ j h k. get_elem?-replicate n j k;
}

Half-set :
    (n i v : ℕ) (value : ℕ → ℕ) (xs : List (Option ℕ))
    → i < n
    → v ≡ value i
    → Half n i value xs
    → Half n (i + 1) value (set xs i (some v))
Half-set n i v value xs h e half = record {
  long = length-set xs i (some v) ∙ half.long;
  filled = λ j below. elim (dec_lt j i) [
    | yes old ↦ get_elem?-set_ne xs i j (some v) (λ same. omega arith) ∙ half.filled j old
    | no new ↦
        let here : j ≡ i = omega arith in
        rw here (
          get_elem?-set_self xs i (some v) (omega (arith, half.long))
          ∙ ap (λ (w : ℕ). some (some w)) e)
  ];
  left = λ j above below.
      get_elem?-set_ne xs i j (some v) (λ same. omega arith) ∙ half.left j (omega arith) below;
}

-- There is no array of nodes with `stat`, and there is one without.
abbrev pub HalfNodes : (stat : Bool) → (n i dst : ℕ) → Option (List (Option ℕ)) → Type 0
HalfNodes true n i dst none = Unit
HalfNodes true n i dst (some nodes) = ⊥
HalfNodes false n i dst none = ⊥
HalfNodes false n i dst (some nodes) = Half n i (λ _. dst) nodes

HalfNodes-set :
    (stat : Bool) (n i dst : ℕ) (nodes : Option (List (Option ℕ)))
    → i < n
    → HalfNodes stat n i dst nodes
    → HalfNodes stat n (i + 1) dst (set_node i dst nodes)
unfolding set_node
HalfNodes-set true n i dst none h half = tt
HalfNodes-set true n i dst (some nodes) h half = half
HalfNodes-set false n i dst none h half = half
HalfNodes-set false n i dst (some nodes) h half = Half-set n i dst (λ _. dst) nodes h refl half

-- `addrs[i]` for the page `i`
abbrev pub page_address : ℕ → ℕ
page_address i = addr_input + i * ps

abbrev pub HalfArrays : (stat : Bool) → (n i dst : ℕ) → Arrays → Type 0
HalfArrays stat n i dst a = Half n i page_address a.addrs × HalfNodes stat n i dst a.nodes

new_arrays-Half : (stat : Bool) (n dst : ℕ) → HalfArrays stat n 0 dst (new_arrays stat n)
unfolding new_arrays
new_arrays-Half true n dst = (Half-new n page_address, tt)
new_arrays-Half false n dst = (Half-new n page_address, Half-new n (λ _. dst))

fill_one-Half :
    (stat : Bool) (n dst i : ℕ) (a : Arrays) (t : List Call)
    → n ≤ 2 ^ 19
    → i < n
    → HalfArrays stat n i dst a
    → (b : Arrays) × (fill_one dst i a t ≡ (ok b, t)) × HalfArrays stat n (i + 1) dst b
unfolding fill_one int_product
fill_one-Half stat n dst i a t small h half =
    let there = lt→ltb i (length a.addrs) (omega (arith, half.0.long)) in
    let word = lt→ltb (i * ps) (2 ^ 31) (omega arith) in
    (
      record { addrs = set a.addrs i (some (addr_input + i * ps)); nodes = set_node i dst a.nodes },
      rw (there, word) refl,
      (
        Half-set n i (addr_input + i * ps) page_address a.addrs h refl half.0,
        HalfNodes-set stat n i dst a.nodes h half.1,
      ),
    )

fill-Half :
    (stat : Bool) (n dst left i : ℕ) (a : Arrays) (t : List Call)
    → n ≤ 2 ^ 19
    → i + left ≤ n
    → HalfArrays stat n i dst a
    → (b : Arrays) × (fill dst left i a t ≡ (ok b, t)) × HalfArrays stat n (i + left) dst b
unfolding fill
fill-Half stat n dst zero i a t small h half =
    let e : i ≡ i + 0 = omega arith in (a, refl, subst (λ k. HalfArrays stat n k dst a) e half)
fill-Half stat n dst (suc left) i a t small h half =
    let next = fill_one-Half stat n dst i a t small (omega arith) half in
    let rest = fill-Half stat n dst left (i + 1) next.0 t small (omega arith) next.2 in
    let e : i + 1 + left ≡ i + suc left = omega arith in
    (rest.0, rw next.1 rest.1, subst (λ k. HalfArrays stat n k dst rest.0) e rest.2)

module _ (kernel : Kernel) where
  -- test_numa_move_pages means to move `pct` percent of the pages. For at most 2^19 pages and 100
  -- percent it hands `move_pages` one call with arrays for all of them: the elements of that part are
  -- the addresses of the first pages, in order, each with the node `dst`, and all the others are
  -- indeterminate. There is no array of nodes with `stat`, and there is one without.
  pub move_pct_lem :
      (stat : Bool) (nr_p pid dst pct : ℕ) (t : List Call)
      → nr_p ≤ 2 ^ 19
      → nr_p * pct < 2 ^ 31
      → pct ≤ 100
      → (b : Arrays) × (move_pct kernel stat nr_p pid dst pct t
          ≡ (ok tt, Call.move_pages_of pid b.addrs b.nodes move_all ∷ t))
        × HalfArrays stat nr_p (nr_p * pct / 100) dst b
  unfolding move_pct int_product emit
  move_pct_lem stat nr_p pid dst pct t small word percent =
      let all : nr_p * pct ≤ nr_p * 100 = mul-le-mul_left nr_p percent in
      let r =
        fill-Half stat nr_p dst (nr_p * pct / 100) 0 (new_arrays stat nr_p) t small
          (omega (arith, all)) (new_arrays-Half stat nr_p dst) in
      let e : 0 + nr_p * pct / 100 ≡ nr_p * pct / 100 = omega arith in
      (
        r.0,
        rw (lt→ltb (nr_p * pct) (2 ^ 31) word, r.1) refl,
        subst (λ k. HalfArrays stat nr_p k dst r.0) e r.2,
      )
