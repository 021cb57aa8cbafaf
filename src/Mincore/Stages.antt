-- ===== src/Mincore/Stages.antt =====
-- The areas are mapped one behind the other, and none of them is lost while the next is mapped.
use mm_regression.Base.{
  ℕ, suc, ◌+◌, ◌*◌, ◌^◌, ◌≤◌, ◌<◌, ◌≡◌, inl, inr, arith, List, ◌∷◌, Option, some, not, Bool-cases,
  ◌==◌, ◌&&◌,
}
use mm_regression.Base.Int.{ℤ, is_minus_one}
use mm_regression.Abi.{addr_input}
use mm_regression.Chunk.{checked_mmap}
use mm_regression.Machine.{Call, Kernel, State, pure, call, emit, as_word}
use mm_regression.Machine.Touched.{IsMapped, Has, IsSafe, IsSpared, Grows, Fine}
use mm_regression.Mincore.Locals.{Options, Areas}

-- The size is a number of times four pages, and at most 255 times.
pub record IsSized (o : Options) : Type 0 where
  pub fours : ℕ
  pub size_eq : o.memsize ≡ 4 * 4096 * fours
  pub some_pages : 0 < fours
  pub few_pages : fours ≤ 255

-- All that a munmap spares is mapped after it.
pub record Unmaps (kernel : Kernel) (p n : ℕ) (t u : List Call) : Type 0 where
  pub keeps : (x : ℕ) → IsSpared p n x → IsMapped kernel t x → IsMapped kernel u x

module _ {kernel : Kernel} where
  pub Fine-pure :
      {A : Type 0} {s : State} (a : A) (Q : A → State → Type 0)
      → IsSafe kernel s.trace
      → Q a s
      → Fine kernel s (pure a) Q
  Fine-pure a Q h q = record { safe = h; outcome = q }

  pub Fine-memset :
      {s : State} (p n : ℕ)
      → IsSafe kernel s.trace
      → Has kernel p n s.trace
      → Fine kernel s (emit kernel (Call.memset p n)) (λ _ t. Grows kernel s.trace t.trace)
  unfolding emit
  Fine-memset p n h m = record {
    safe = (m, h);
    outcome = record { mapped = λ x k. k; safe = λ k. (m, k) };
  }

  pub Fine-munmap :
      {s : State} (p n : ℕ)
      → IsSafe kernel s.trace
      → Fine kernel s (emit kernel (Call.munmap p n)) (λ _ t. Unmaps kernel p n s.trace t.trace)
  unfolding emit
  Fine-munmap p n h = record { safe = h; outcome = record { keeps = λ x spared m. (spared, m) } }

  pub Has-grows :
      {t u : List Call} {p n : ℕ} → Grows kernel t u → Has kernel p n t → Has kernel p n u
  Has-grows g h = record { at = λ x lo hi. g.mapped x (h.at x lo hi) }

  -- A part of what is mapped is mapped.
  pub Has-part :
      {t : List Call} (p n q m : ℕ) → p ≤ q → q + m ≤ p + n → Has kernel p n t → Has kernel q m t
  Has-part p n q m lo hi h = record { at = λ x from below. h.at x (omega arith) (omega arith) }

  pub Fine-mmap :
      {s : State} (base size prot flags : ℕ) (fd : ℤ) (offset : ℕ)
      → 0 < base
      → IsSafe kernel s.trace
      → Fine kernel s
          (checked_mmap kernel base size prot flags fd offset)
          (λ p t. (p ≡ base) × Grows kernel s.trace t.trace × Has kernel p size t.trace)
  unfolding checked_mmap call
  Fine-mmap {s} base size prot flags fd offset above h =
      let c = Call.mmap base size prot flags fd offset in
      let r = kernel s.trace c in
      let grows : Grows kernel s.trace (c ∷ s.trace) = record {
        mapped = λ x m. inr m;
        safe = λ m. m;
      } in
      elim (Bool-cases (is_minus_one r)) [
        | inl failed ↦ record { safe = rw failed h; outcome = rw failed tt }
        | inr mapped ↦ elim (Bool-cases (not (base == 0) && not (as_word r == base))) [
          | inl elsewhere ↦ record {
            safe = rw (mapped, elsewhere) h;
            outcome = rw (mapped, elsewhere) tt;
          }
          | inr there ↦ record {
            safe = rw (mapped, there) h;
            outcome =
                rw (mapped, there)
                  (ground arith, grows, record { at = λ x lo hi. inl (mapped, lo, hi) });
          }
        ]
      ]

-- Where the next area goes.
pub record Placed (n : ℕ) (a : Areas) : Type 0 where
  pub above : 0 < a.address
  pub below : a.address ≤ addr_input + n * 2 ^ 25

-- A step from the areas `a` in the state `s`: what is mapped below the next area stays mapped.
pub record Stage (kernel : Kernel) (a : Areas) (s : State) (b : Areas) (t : State) : Type 0 where
  pub up : a.address ≤ b.address
  pub near : b.address ≤ a.address + 2 ^ 25
  pub keeps : (p n : ℕ) → p + n ≤ a.address → Has kernel p n s.trace → Has kernel p n t.trace

-- An area that is mapped, and lies below the next one.
pub record Area (kernel : Kernel) (pointer : Option ℕ) (n : ℕ) (b : Areas) (t : State)
    : Type 0 where
  pub addr : ℕ
  pub known : pointer ≡ some addr
  pub below : addr + n ≤ b.address
  pub has : Has kernel addr n t.trace

module _ {kernel : Kernel} where
  pub Stage-same : (a : Areas) {s t : State} → Grows kernel s.trace t.trace → Stage kernel a s a t
  Stage-same a g = record { up = omega arith; near = omega arith; keeps = λ p n h m. Has-grows g m }

  pub Placed-Stage :
      {n : ℕ} {a b : Areas} {s t : State} → Placed n a → Stage kernel a s b t → Placed (suc n) b
  Placed-Stage l g = record {
    above = omega (arith, l.above, g.up);
    below = omega (arith, l.below, g.near);
  }

  pub carry :
      {a b : Areas} {s t : State} {pointer : Option ℕ} {n : ℕ}
      → Stage kernel a s b t
      → Area kernel pointer n a s
      → Area kernel pointer n b t
  carry g m = record {
    addr = m.addr;
    known = m.known;
    below = omega (arith, m.below, g.up);
    has = g.keeps m.addr _ m.below m.has;
  }

-- An area that is mapped, and does not reach beyond the 64-bit addresses.
pub record Covers (kernel : Kernel) (pointer : Option ℕ) (n : ℕ) (t : List Call) : Type 0 where
  pub addr : ℕ
  pub known : pointer ≡ some addr
  pub has : Has kernel addr n t
  pub below : addr + n < 2 ^ 64
