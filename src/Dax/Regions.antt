-- ===== src/Dax/Regions.antt =====
-- Every access lies in one region.
use mm_regression.Base.{
  ℕ, zero, suc, ◌+◌, ◌*◌, ◌/◌, ◌%◌, ◌^◌, ◌≤◌, ◌<◌, ◌≡◌, refl, sym, ap, ◌∙◌, arith, List, ◌∷◌,
  Option, none, some, length, get_elem?, get_elem?-Some, lt→ltb,
}
use native.Mathlib.Nat.{add-mul, mul_assoc, mul_comm, mul-le-mul_right, div-add-mod', mod-lt}
use mathlib.Core.Path.{subst}
use mm_regression.Base.Int.{ℤ, is_minus_one}
use mm_regression.Abi.{addr_input, protflag}
use mm_regression.Machine.{Call, Kernel, ok, pure, present, ◌>>=◌, as_word, add64, mul64}
use mm_regression.Machine.Bare.{R, call, emit}
use mm_regression.Machine.Post.{Post, Returned, Post-bind, Post-if, Post-any}
use mm_regression.Dax.{gb, chunk_size, nr_mmaps, map_regions, place, write_at, read_at}

-- With 1 GB a multiple of the size of a piece, a piece does not reach beyond a whole gigabyte.
pieces : (i iosize m : ℕ) → iosize * m ≡ gb → 0 < m → (i * iosize) % gb + iosize ≤ gb
pieces i iosize m e h =
    let q = i / m in
    let s = i % m in
    let below : s < m = omega (arith, mod-lt i h) in
    let above : s + 1 ≤ m = omega arith in
    let split : i * iosize ≡ q * gb + s * iosize =
      ap (λ (j : ℕ). j * iosize) (sym (div-add-mod' i m))
      ∙ add-mul (q * m) s iosize
      ∙ ap (λ (j : ℕ). j + s * iosize)
          (mul_assoc q m iosize ∙ ap (λ (j : ℕ). q * j) (mul_comm m iosize ∙ e)) in
    let inside : s * iosize + iosize ≤ gb =
      omega (arith, mul-le-mul_right iosize above, mul_comm m iosize, e, add-mul s 1 iosize) in
    omega (arith, split, inside)

room : (i iosize size : ℕ) → 0 < iosize → i < size / iosize → i * iosize + iosize ≤ size
room i iosize size h k = grind arith

-- A pointer to the byte `x` of the file in one of the regions, with `iosize` bytes from it on in the
-- region.
pub record IsInside (addrs : List ℕ) (size iosize x p : ℕ) : Type 0 where
  pub region : ℕ
  pub base : ℕ
  pub offset : ℕ
  pub there : get_elem? addrs region ≡ some base
  pub address : p ≡ add64 base offset
  pub which : region * gb + offset ≡ x
  pub fits : offset + iosize ≤ chunk_size region size

module _ (kernel : Kernel) where
  -- The result, if there is one, has as many addresses as asked.
  abbrev Holds : (left : ℕ) → Option (List ℕ) → List Call → Type 0
  Holds left none u = Unit
  Holds left (some addrs) u = length addrs ≡ left

  one_more :
      (left first : ℕ) (u : List Call) (rest : Option (List ℕ))
      → Holds left rest u
      → Post u
          (elim rest as (λ _. R (Option (List ℕ))) [
            | none ↦ pure none
            | some addrs ↦ pure (some (first ∷ addrs))
          ])
          (Holds (suc left))
  one_more left first u none h = record { at = tt }
  one_more left first u (some addrs) h = record { at = ap suc h }

  map_regions-Holds :
      (flags : ℕ) (fd : ℤ) (size left i : ℕ) (t : List Call)
      → Post t (map_regions kernel flags fd size left i) (Holds left)
  unfolding map_regions
  map_regions-Holds flags fd size zero i t = record { at = refl }
  map_regions-Holds flags fd size (suc left) i t = record {
    at =
        (Post-bind (λ _ _. Unit {0})
          (Post-any t (
            call kernel
              (Call.mmap (addr_input + i * gb) (chunk_size i size) protflag flags fd (i * gb))))
          λ r u _.
            Post-if (is_minus_one r) {m = pure none} (record { at = tt })
              (Post-bind (Holds left) (map_regions-Holds flags fd size left (i + 1) u)
                λ rest v h. one_more left (as_word r) v rest h)).at;
  }

  length-map_regions :
      (flags : ℕ) (fd : ℤ) (size left i : ℕ) (t u : List Call) (addrs : List ℕ)
      → map_regions kernel flags fd size left i t ≡ (ok (some addrs), u)
      → length addrs ≡ left
  length-map_regions flags fd size left i t u addrs e =
      let h = (map_regions-Holds flags fd size left i t).at in
      subst (λ r. Returned (Holds left) r.0 r.1) e h

  chunk_fits :
      (x iosize size : ℕ)
      → x + iosize ≤ size
      → size < 2 ^ 61
      → x % gb + iosize ≤ gb
      → x % gb + iosize ≤ chunk_size (x / gb) size
  unfolding chunk_size
  chunk_fits x iosize size h k l = ground arith

  place-IsInside :
      (addrs : List ℕ) (size iosize m i : ℕ) (t : List Call)
      → length addrs ≡ nr_mmaps size
      → size < 2 ^ 61
      → 0 < iosize
      → iosize * m ≡ gb
      → i < size / iosize
      → i < 2 ^ 31
      → (p : ℕ) × (place kernel addrs iosize i t ≡ (ok p, t))
        × IsInside addrs size iosize (i * iosize) p
  unfolding place nr_mmaps
  place-IsInside addrs size iosize m i t long small positive whole below int =
      let x = i * iosize in
      let in_range = lt→ltb i (2 ^ 31) int in
      let inside : x + iosize ≤ size = room i iosize size positive below in
      let word : mul64 i iosize ≡ x = omega (arith, inside) in
      let many : 0 < m = ground (arith, whole) in
      let fits = chunk_fits x iosize size inside small (pieces i iosize m whole many) in
      let found = get_elem?-Some addrs (x / gb) (omega (arith, long, inside)) in
      let step : ℕ → R ℕ =
        λ y. present (get_elem? addrs (y / gb)) >>= λ base. pure (add64 base (y % gb)) in
      let here : place kernel addrs iosize i t ≡ (ok (add64 found.0 (x % gb)), t) =
        rw in_range (ap (λ y. step y t) word ∙ rw found.1 refl) in
      (
        add64 found.0 (x % gb),
        here,
        record {
          region = x / gb;
          base = found.0;
          offset = x % gb;
          there = found.1;
          address = refl;
          which = omega arith;
          fits = fits;
        },
      )

  pub accesses-IsInside :
      (flags : ℕ) (fd : ℤ) (size iosize m i : ℕ) (t u v : List Call) (addrs : List ℕ)
      → map_regions kernel flags fd size (nr_mmaps size) 0 t ≡ (ok (some addrs), u)
      → size < 2 ^ 61
      → 0 < iosize
      → iosize * m ≡ gb
      → i < size / iosize
      → i < 2 ^ 31
      → (p : ℕ) × (write_at kernel addrs iosize i v ≡ (ok none, Call.memset p iosize ∷ v))
        × (read_at kernel addrs iosize i v ≡ (ok none, Call.memread p iosize ∷ v))
        × IsInside addrs size iosize (i * iosize) p
  unfolding write_at read_at emit
  accesses-IsInside flags fd size iosize m i t u v addrs mapped small positive whole below int =
      let long = length-map_regions flags fd size (nr_mmaps size) 0 t u addrs mapped in
      let found = place-IsInside addrs size iosize m i v long small positive whole below int in
      (found.0, rw found.1 refl, rw found.1 refl, found.2)
