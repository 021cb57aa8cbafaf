-- ===== src/Machine/Post.antt =====
-- Postconditions of the operations: what holds of the value and the state where one returns.
use mm_regression.Base.{Bool, true, false, if◌then◌else◌}
use mm_regression.Machine.{Result, ok, exit, fault, running, Run, and_then, ◌>>=◌}

abbrev pub Returned : {S : Type 0} {A : Type 0} → (A → S → Type 0) → Result A → S → Type 0
Returned Q (ok a) s = Q a s
Returned Q exit s = Unit
Returned Q fault s = Unit
Returned Q running s = Unit

-- If `m` returns from `s`, then `Q` holds.
pub record Post {S : Type 0} {A : Type 0} (s : S) (m : Run S A) (Q : A → S → Type 0) : Type 0 where
  pub at : Returned Q (m s).0 (m s).1

module _ {S : Type 0} {A B : Type 0} where
  Returned-bind :
      (Q : A → S → Type 0) (R : B → S → Type 0) (r : Result A) (s : S) (f : A → Run S B)
      → Returned Q r s
      → ((a : A) (t : S) → Q a t → Post t (f a) R)
      → Returned R (and_then r f s).0 (and_then r f s).1
  Returned-bind Q R (ok a) s f h k = (k a s h).at
  Returned-bind Q R exit s f h k = tt
  Returned-bind Q R fault s f h k = tt
  Returned-bind Q R running s f h k = tt

  pub Post-bind :
      {s : S} {m : Run S A} {f : A → Run S B} (Q : A → S → Type 0) {R : B → S → Type 0}
      → Post s m Q
      → ((a : A) (t : S) → Q a t → Post t (f a) R)
      → Post s (m >>= f) R
  Post-bind {s} {m} {f} Q {R} h k = record { at = Returned-bind Q R (m s).0 (m s).1 f h.at k }

module _ {S : Type 0} {A : Type 0} {Q R : A → S → Type 0} where
  Returned-mono :
      (r : Result A) (t : S) → ((a : A) (u : S) → Q a u → R a u) → Returned Q r t → Returned R r t
  Returned-mono (ok a) t f h = f a t h
  Returned-mono exit t f h = tt
  Returned-mono fault t f h = tt
  Returned-mono running t f h = tt

  pub Post-mono :
      {s : S} {m : Run S A} → Post s m Q → ((a : A) (u : S) → Q a u → R a u) → Post s m R
  Post-mono {s} {m} h f = record { at = Returned-mono (m s).0 (m s).1 f h.at }

pub Post-if :
    {S : Type 0} {A : Type 0} {s : S} {Q : A → S → Type 0} (b : Bool) {m n : Run S A}
    → Post s m Q
    → Post s n Q
    → Post s (if b then m else n) Q
Post-if true h k = h
Post-if false h k = k

module _ {S : Type 0} {A : Type 0} where
  Returned-any : (r : Result A) (s : S) → Returned (λ _ _. Unit {0}) r s
  Returned-any (ok a) s = tt
  Returned-any exit s = tt
  Returned-any fault s = tt
  Returned-any running s = tt

  pub Post-any : (s : S) (m : Run S A) → Post s m (λ _ _. Unit {0})
  Post-any s m = record { at = Returned-any (m s).0 (m s).1 }
