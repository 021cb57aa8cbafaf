-- ===== src/Machine/Ends.antt =====
-- Code whose loops all come to an end: from no state is it still `running`.
use mm_regression.Base.{◌≡◌, ◌≢◌, refl, Bool, true, false, Option, none, some, if◌then◌else◌}
use mm_regression.Machine.{
  Call, Kernel, Result, ok, exit, fault, running, Run, pure, and_then, ◌>>=◌, call, present,
}

pub record Ends {S : Type 0} {A : Type 0} (m : Run S A) : Type 0 where
  pub at : (s : S) → (m s).0 ≢ running

pub Ends-pure : {S : Type 0} {A : Type 0} (a : A) → Ends {S = S} (pure a)
Ends-pure a = record { at = λ s e. cc }

pub Ends-call : (kernel : Kernel) (c : Call) → Ends (call kernel c)
unfolding call
Ends-call kernel c = record { at = λ s e. cc }

pub Ends-if :
    {S : Type 0} {A : Type 0} (b : Bool) {m n : Run S A}
    → (b ≡ true → Ends m)
    → (b ≡ false → Ends n)
    → Ends (if b then m else n)
Ends-if true h k = h refl
Ends-if false h k = k refl

module _ {S : Type 0} {A B : Type 0} where
  and_then-ne-running :
      (r : Result A) (f : A → Run S B) (s : S)
      → r ≢ running
      → ((a : A) → Ends (f a))
      → (and_then r f s).0 ≢ running
  and_then-ne-running (ok a) f s h k e = (k a).at s e
  and_then-ne-running exit f s h k e = cc
  and_then-ne-running fault f s h k e = cc
  and_then-ne-running running f s h k e = h refl

  pub Ends-bind : (m : Run S A) (f : A → Run S B) → Ends m → ((a : A) → Ends (f a)) → Ends (m >>= f)
  Ends-bind m f h k = record { at = λ s. and_then-ne-running (m s).0 f (m s).1 (h.at s) k }

  -- The rest of the block may use what was there.
  pub Ends-present :
      (o : Option A) (f : A → Run S B)
      → ((a : A) → o ≡ some a → Ends (f a))
      → Ends (present o >>= f)
  Ends-present none f k = record { at = λ s e. cc }
  Ends-present (some a) f k = record { at = (k a refl).at }
