-- ===== src/Machine/Total.antt =====
-- Total correctness of the operations: one returns, with a value and a state that are as said.
use mathlib.Core.Path.{subst}
use mm_regression.Base.{
  Option, none, some, arith, ℕ, zero, suc, ◌+◌, ◌≡◌, refl, Bool, true, false, if◌then◌else◌,
}
use mm_regression.Machine.{
  State, Result, ok, exit, fault, running, Run, M, and_then, ◌>>=◌, times, present,
}
use mm_regression.Machine.Post.{Post, Returned}

abbrev pub Ensured : {S : Type 0} {A : Type 0} → (A → S → Type 0) → Result A → S → Type 0
Ensured Q (ok a) s = Q a s
Ensured Q exit s = ⊥
Ensured Q fault s = ⊥
Ensured Q running s = ⊥

-- From `s`, `m` returns, and `Q` holds.
pub record Total {S : Type 0} {A : Type 0} (s : S) (m : Run S A) (Q : A → S → Type 0) : Type 0 where
  pub at : Ensured Q (m s).0 (m s).1

module _ {S : Type 0} {A B : Type 0} where
  Ensured-bind :
      (Q : A → S → Type 0) (R : B → S → Type 0) (r : Result A) (s : S) (f : A → Run S B)
      → Ensured Q r s
      → ((a : A) (t : S) → Q a t → Total t (f a) R)
      → Ensured R (and_then r f s).0 (and_then r f s).1
  Ensured-bind Q R (ok a) s f h k = (k a s h).at
  Ensured-bind Q R exit s f h k = absurd h
  Ensured-bind Q R fault s f h k = absurd h
  Ensured-bind Q R running s f h k = absurd h

  pub Total-bind :
      {s : S} {m : Run S A} {f : A → Run S B} (Q : A → S → Type 0) {R : B → S → Type 0}
      → Total s m Q
      → ((a : A) (t : S) → Q a t → Total t (f a) R)
      → Total s (m >>= f) R
  Total-bind {s} {m} {f} Q {R} h k = record { at = Ensured-bind Q R (m s).0 (m s).1 f h.at k }

pub Total-if :
    {S : Type 0} {A : Type 0} {s : S} {Q : A → S → Type 0} (b : Bool) {m n : Run S A}
    → (b ≡ true → Total s m Q)
    → (b ≡ false → Total s n Q)
    → Total s (if b then m else n) Q
Total-if true h k = h refl
Total-if false h k = k refl

module _ {S : Type 0} {A : Type 0} where
  Ensured-map :
      {Q R : A → S → Type 0} (r : Result A) (s : S)
      → Ensured Q r s
      → ((a : A) (t : S) → Q a t → R a t)
      → Ensured R r s
  Ensured-map (ok a) s h k = k a s h
  Ensured-map exit s h k = absurd h
  Ensured-map fault s h k = absurd h
  Ensured-map running s h k = absurd h

  pub Total-map :
      {s : S} {m : Run S A} {Q R : A → S → Type 0}
      → Total s m Q
      → ((a : A) (t : S) → Q a t → R a t)
      → Total s m R
  Total-map {s} {m} h k = record { at = Ensured-map (m s).0 (m s).1 h.at k }

module _ {S : Type 0} {A : Type 0} where
  Ensured-Returned :
      (Q R : A → S → Type 0) (r : Result A) (s : S) → Ensured Q r s → Returned R r s → Ensured R r s
  Ensured-Returned Q R (ok a) s h k = k
  Ensured-Returned Q R exit s h k = absurd h
  Ensured-Returned Q R fault s h k = absurd h
  Ensured-Returned Q R running s h k = absurd h

  pub Total-Post :
      {s : S} {m : Run S A} {Q R : A → S → Type 0} → Total s m Q → Post s m R → Total s m R
  Total-Post {s} {m} {Q} {R} h k = record { at = Ensured-Returned Q R (m s).0 (m s).1 h.at k.at }

-- A loop whose body keeps `I` returns with `I`.
pub Total-times :
    (I : State → Type 0) (body : ℕ → M (Unit {0}))
    → ((i : ℕ) (s : State) → I s → Total s (body i) (λ _ t. I t))
    → (left i : ℕ) (s : State) → I s
    → Total s (times left i body) (λ _ t. I t)
unfolding times
Total-times I body keeps zero i s h = record { at = h }
Total-times I body keeps (suc left) i s h = record {
  at =
      (Total-bind {f = λ _. times left (i + 1) body} (λ _ t. I t) (keeps i s h)
        (λ _ t k. Total-times I body keeps left (i + 1) t k)).at;
}

-- What is there is read, and the rest of the block goes on with it.
pub Total-present :
    {S : Type 0} {A B : Type 0} {s : S} {Q : B → S → Type 0} (o : Option A) (f : A → Run S B)
    (a : A)
    → o ≡ some a
    → Total s (f a) Q
    → Total s (present o >>= f) Q
Total-present none f a e h = absurd (ground arith)
Total-present {s} {Q} (some b) f a e h =
    let same : a ≡ b = ground arith in record { at = (subst (λ c. Total s (f c) Q) same h).at }

-- The state after a block, also where the rest of it does not return.
module _ {S : Type 0} {A B : Type 0} (P : S → Type 0) where
  Ensured-then :
      (Q : A → S → Type 0) (r : Result A) (s : S) (f : A → Run S B)
      → Ensured Q r s
      → ((a : A) (t : S) → Q a t → P (f a t).1)
      → P (and_then r f s).1
  Ensured-then Q (ok a) s f h k = k a s h
  Ensured-then Q exit s f h k = absurd h
  Ensured-then Q fault s f h k = absurd h
  Ensured-then Q running s f h k = absurd h

  pub Total-then :
      {s : S} {m : Run S A} (f : A → Run S B) {Q : A → S → Type 0}
      → Total s m Q
      → ((a : A) (t : S) → Q a t → P (f a t).1)
      → P ((m >>= f) s).1
  Total-then {s} {m} f {Q} h k = Ensured-then Q (m s).0 (m s).1 f h.at k

  and_then-keeps :
      (r : Result A) (s : S) (f : A → Run S B)
      → P s
      → ((a : A) (t : S) → P t → P (f a t).1)
      → P (and_then r f s).1
  and_then-keeps (ok a) s f h k = k a s h
  and_then-keeps exit s f h k = h
  and_then-keeps fault s f h k = h
  and_then-keeps running s f h k = h

  pub bind-keeps :
      (s : S) (m : Run S A) (f : A → Run S B)
      → P (m s).1
      → ((a : A) (t : S) → P t → P (f a t).1)
      → P ((m >>= f) s).1
  bind-keeps s m f h k = and_then-keeps (m s).0 (m s).1 f h k
