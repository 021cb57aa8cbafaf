-- ===== src/Access/Pages.antt =====
-- Which pages `read_memory`, `write_memory` and the system writes touch.
use mm_regression.Base.{
  ℕ, zero, suc, ◌+◌, ◌-◌, ◌*◌, ◌/◌, ◌≡◌, ◌≢◌, refl, sym, ap, ◌∙◌, List, [], ◌∷◌, ◌++◌, Option, none,
  some, true, false, leb, arith, Bool-cases, inl, inr,
}
use mathlib.Core.List.{reverse, reverse-append}
use mm_regression.Base.Text.{CString, str_eq, str_eq→eq, codes}
use mm_regression.Abi.{ps}
use mm_regression.Machine.{Kernel, MemChunk, State, ok, emit}
use mm_regression.Access.{up, down, forward, backward, syswrite_down, rejects_type}

-- The offsets 0, PS, 2 PS, … of `n` pages.
pub pages : (n : ℕ) → List ℕ
pages zero = []
pages (suc n) = pages n ++ ((n * ps) ∷ [])

up-append : (n i : ℕ) → up (suc n) i ≡ up n i ++ ((i + n * ps) ∷ [])
unfolding up
up-append zero i = ap (λ (t : ℕ). t ∷ []) (omega arith)
up-append (suc n) i =
    ap (λ t. i ∷ t) (up-append n (i + ps) ∙ ap (λ t. up n (i + ps) ++ (t ∷ [])) (omega arith))

up-eq-pages : (n : ℕ) → up n 0 ≡ pages n
unfolding up pages
up-eq-pages zero = refl
up-eq-pages (suc n) =
    up-append n 0
    ∙ ap (λ (t : ℕ). up n 0 ++ (t ∷ [])) (omega arith)
    ∙ ap (λ t. t ++ ((n * ps) ∷ [])) (up-eq-pages n)

-- The forward loop touches the pages from the first to the last, also one that is cut short.
pub forward-eq-pages : (size : ℕ) → forward size ≡ pages ((size + ps - 1) / ps)
unfolding forward
forward-eq-pages size = up-eq-pages ((size + ps - 1) / ps)

down-eq-reverse : (n : ℕ) → down n (n * ps - ps) ≡ reverse (pages n)
unfolding down pages
down-eq-reverse zero = refl
down-eq-reverse (suc n) =
    ap (λ i. i ∷ down n (i - ps)) (omega arith)
    ∙ ap (λ t. (n * ps) ∷ t) (down-eq-reverse n)
    ∙ sym (reverse-append (pages n) ((n * ps) ∷ []))

-- On whole pages the backward loop touches the pages of the forward loop, in reverse order.
backward-eq-reverse : (n : ℕ) → backward (n * ps) ≡ reverse (pages n)
unfolding backward
backward-eq-reverse n = let e : n * ps / ps ≡ n = omega arith in rw e (down-eq-reverse n)

forward-eq-pages-whole : (n : ℕ) → forward (n * ps) ≡ pages n
forward-eq-pages-whole n =
    let e : (n * ps + ps - 1) / ps ≡ n = omega arith in rw (forward-eq-pages (n * ps), e) refl

backward-eq-reverse-forward : (n : ℕ) → backward (n * ps) ≡ reverse (forward (n * ps))
backward-eq-reverse-forward n = backward-eq-reverse n ∙ ap reverse (sym (forward-eq-pages-whole n))

module _ (kernel : Kernel) where
  -- A system write in reverse order never returns, however long it is watched.
  pub syswrite_down-ne-ok :
      (rounds : ℕ) (mc : MemChunk) (i : ℕ) (s : State)
      → (syswrite_down kernel rounds mc i s).0 ≢ ok tt
  unfolding syswrite_down emit
  syswrite_down-ne-ok zero mc i s h = cc
  syswrite_down-ne-ok (suc rounds) mc i s h =
      let goes_on : leb 0 i ≡ true = ground arith in
      syswrite_down-ne-ok rounds mc _ _ (rw goes_on at h)

-- No `type` is refused by `do_access`.
pub rejects_type_never : (type : Option CString) → rejects_type type ≡ false
unfolding rejects_type str_eq
rejects_type_never none = refl
rejects_type_never (some type) = elim (Bool-cases (str_eq type (codes "read"))) [
  | inl read ↦
      let e : type ≡ codes "read" = str_eq→eq type (codes "read") read in
      ground (arith, ap (λ t. str_eq t (codes "write")) e)
  | inr other ↦ rw other
]
