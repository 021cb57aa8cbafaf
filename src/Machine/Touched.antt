-- ===== src/Machine/Touched.antt =====
-- Which memory is mapped, and which is touched, by the calls made so far, and
-- code that touches no other memory than what is mapped.
use mm_regression.Base.{
  ℕ, zero, suc, ◌+◌, ◌-◌, ◌*◌, ◌/◌, ◌%◌, ◌≤◌, ◌<◌, ◌≡◌, ◌≢◌, ◌⊎◌, refl, List, [], ◌∷◌, Bool, true,
  false, if◌then◌else◌,
}
use mm_regression.Base.Int.{is_minus_one}
use mm_regression.Abi.{ps}
use mm_regression.Machine.{
  Call, Kernel, State, Result, ok, exit, fault, running, M, and_then, ◌>>=◌, call, emit, as_word,
  times, done,
}

-- An address outside the whole pages that munmap removes; an address inside a page is refused.
abbrev pub IsSpared : (addr size x : ℕ) → Type 0
IsSpared addr size x = (addr % ps ≢ 0) ⊎ ((x < addr) ⊎ (addr + (size + ps - 1) / ps * ps ≤ x))

module _ (kernel : Kernel) where
  -- The address is mapped after the calls made so far, the latest first.
  abbrev pub IsMapped : List Call → ℕ → Type 0
  IsMapped [] x = ⊥
  IsMapped (Call.mmap addr size prot flags fd offset ∷ t) x =
      let r = kernel t (Call.mmap addr size prot flags fd offset) in
      ((is_minus_one r ≡ false) × (as_word r ≤ x) × (x < as_word r + size)) ⊎ IsMapped t x
  IsMapped (Call.munmap addr size ∷ t) x = IsSpared addr size x × IsMapped t x
  IsMapped (c ∷ t) x = IsMapped t x

-- Every address of the range is.
pub record Has (kernel : Kernel) (addr size : ℕ) (t : List Call) : Type 0 where
  pub at : (x : ℕ) → addr ≤ x → x < addr + size → IsMapped kernel t x

module _ (kernel : Kernel) where
  -- What memset writes and what mincore asks about is mapped at that time.
  abbrev pub IsSafe : List Call → Type 0
  IsSafe [] = Unit
  IsSafe (Call.memset addr size ∷ t) = Has kernel addr size t × IsSafe t
  IsSafe (Call.mincore addr size ∷ t) = Has kernel addr size t × IsSafe t
  IsSafe (c ∷ t) = IsSafe t

-- A call that neither maps nor touches anything.
abbrev pub Quiet : Call → Type 0
Quiet (Call.mmap addr size prot flags fd offset) = ⊥
Quiet (Call.munmap addr size) = ⊥
Quiet (Call.memset addr size) = ⊥
Quiet (Call.mincore addr size) = ⊥
Quiet c = Unit

-- From one list of calls to a longer one, what is mapped stays so, and no touch is added in vain.
pub record Grows (kernel : Kernel) (t u : List Call) : Type 0 where
  pub mapped : (x : ℕ) → IsMapped kernel t x → IsMapped kernel u x
  pub safe : IsSafe kernel t → IsSafe kernel u

module _ {kernel : Kernel} where
  pub Grows-refl : (t : List Call) → Grows kernel t t
  Grows-refl t = record { mapped = λ x h. h; safe = λ h. h }

  pub Grows-trans : {t u v : List Call} → Grows kernel t u → Grows kernel u v → Grows kernel t v
  Grows-trans g h = record {
    mapped = λ x m. h.mapped x (g.mapped x m);
    safe = λ m. h.safe (g.safe m);
  }

  pub Grows-Quiet : (c : Call) (t : List Call) → Quiet c → Grows kernel t (c ∷ t)
  Grows-Quiet (Call.mmap addr size prot flags fd offset) t q = absurd q
  Grows-Quiet (Call.munmap addr size) t q = absurd q
  Grows-Quiet (Call.memset addr size) t q = absurd q
  Grows-Quiet (Call.mincore addr size) t q = absurd q
  Grows-Quiet c t q = record { mapped = λ x h. h; safe = λ h. h }

-- Code that makes quiet calls only, and has no undefined behaviour.
pub record IsQuiet (kernel : Kernel) {A : Type 0} (m : M A) : Type 0 where
  pub at : (s : State) → Grows kernel s.trace (m s).1.trace × ((m s).0 ≢ fault)

module _ {kernel : Kernel} where
  pub IsQuiet-stop : {A : Type 0} (r : Result A) → r ≢ fault → IsQuiet kernel (λ s. (r, s))
  IsQuiet-stop r h = record { at = λ s. (Grows-refl s.trace, h) }

  pub IsQuiet-pure : {A : Type 0} (a : A) → IsQuiet kernel (λ s. (ok a, s))
  IsQuiet-pure a = IsQuiet-stop (ok a) (λ e. cc)

  pub IsQuiet-gets : {A : Type 0} (f : State → A) → IsQuiet kernel (λ s. (ok (f s), s))
  IsQuiet-gets f = record { at = λ s. (Grows-refl s.trace, λ e. cc) }

  pub IsQuiet-done : IsQuiet kernel done
  IsQuiet-done = IsQuiet-stop (ok tt) (λ e. cc)

  pub IsQuiet-call : (c : Call) → Quiet c → IsQuiet kernel (call kernel c)
  unfolding call
  IsQuiet-call c q = record { at = λ s. (Grows-Quiet c s.trace q, λ e. cc) }

  pub IsQuiet-emit : (c : Call) → Quiet c → IsQuiet kernel (emit kernel c)
  unfolding emit
  IsQuiet-emit c q = record { at = λ s. (Grows-Quiet c s.trace q, λ e. cc) }

  pub IsQuiet-if :
      {A : Type 0} (b : Bool) {m n : M A}
      → IsQuiet kernel m
      → IsQuiet kernel n
      → IsQuiet kernel (if b then m else n)
  IsQuiet-if true h k = h
  IsQuiet-if false h k = k

  and_then-quiet :
      {A B : Type 0} (t : List Call) (r : Result A) (u : State) (f : A → M B)
      → Grows kernel t u.trace
      → r ≢ fault
      → ((a : A) → IsQuiet kernel (f a))
      → Grows kernel t (and_then r f u).1.trace × ((and_then r f u).0 ≢ fault)
  and_then-quiet t (ok a) u f g h k = let (more, sound) = (k a).at u in (Grows-trans g more, sound)
  and_then-quiet t exit u f g h k = (g, λ e. cc)
  and_then-quiet t fault u f g h k = absurd (h refl)
  and_then-quiet t running u f g h k = (g, λ e. cc)

  pub IsQuiet-bind :
      {A B : Type 0} (m : M A) (f : A → M B)
      → IsQuiet kernel m
      → ((a : A) → IsQuiet kernel (f a))
      → IsQuiet kernel (m >>= f)
  IsQuiet-bind m f h k = record {
    at = λ s. and_then-quiet s.trace (m s).0 (m s).1 f (h.at s).0 (h.at s).1 k;
  }

  pub IsQuiet-times :
      (left i : ℕ) (body : ℕ → M (Unit {0}))
      → ((j : ℕ) → IsQuiet kernel (body j))
      → IsQuiet kernel (times left i body)
  unfolding times
  IsQuiet-times zero i body h = IsQuiet-done
  IsQuiet-times (suc left) i body h =
      IsQuiet-bind (body i) _ (h i) (λ _. IsQuiet-times left (i + 1) body h)

-- How a function may end: with what is said of its value, or early, but never with undefined
-- behaviour.
abbrev pub Outcome : {A : Type 0} → (A → State → Type 0) → Result A → State → Type 0
Outcome Q (ok a) s = Q a s
Outcome Q exit s = Unit
Outcome Q fault s = ⊥
Outcome Q running s = Unit

-- The calls stay safe, however the function ends.
pub record Fine (kernel : Kernel) {A : Type 0} (s : State) (m : M A) (Q : A → State → Type 0)
    : Type 0 where
  pub safe : IsSafe kernel (m s).1.trace
  pub outcome : Outcome Q (m s).0 (m s).1

module _ {kernel : Kernel} {A B : Type 0} where
  and_then-fine :
      (Q : A → State → Type 0) (R : B → State → Type 0) (r : Result A) (t : State) (f : A → M B)
      → IsSafe kernel t.trace
      → Outcome Q r t
      → ((a : A) (u : State) → IsSafe kernel u.trace → Q a u → Fine kernel u (f a) R)
      → IsSafe kernel (and_then r f t).1.trace × Outcome R (and_then r f t).0 (and_then r f t).1
  and_then-fine Q R (ok a) t f h q k = let next = k a t h q in (next.safe, next.outcome)
  and_then-fine Q R exit t f h q k = (h, tt)
  and_then-fine Q R fault t f h q k = absurd q
  and_then-fine Q R running t f h q k = (h, tt)

  pub Fine-bind :
      {s : State} {m : M A} (f : A → M B) (Q : A → State → Type 0) {R : B → State → Type 0}
      → Fine kernel s m Q
      → ((a : A) (u : State) → IsSafe kernel u.trace → Q a u → Fine kernel u (f a) R)
      → Fine kernel s (m >>= f) R
  Fine-bind {s} {m} f Q {R} h k =
      let both = and_then-fine Q R (m s).0 (m s).1 f h.safe h.outcome k in
      record { safe = both.0; outcome = both.1 }

Outcome-Quiet :
    {A : Type 0} (P : State → Type 0) (r : Result A) (t : State)
    → r ≢ fault
    → P t
    → Outcome (λ _ u. P u) r t
Outcome-Quiet P (ok a) t h g = g
Outcome-Quiet P exit t h g = tt
Outcome-Quiet P fault t h g = absurd (h refl)
Outcome-Quiet P running t h g = tt

Outcome-map :
    {A : Type 0} {Q R : A → State → Type 0} (r : Result A) (t : State)
    → Outcome Q r t
    → ((a : A) (u : State) → Q a u → R a u)
    → Outcome R r t
Outcome-map (ok a) t h k = k a t h
Outcome-map exit t h k = tt
Outcome-map fault t h k = absurd h
Outcome-map running t h k = tt

module _ {kernel : Kernel} {A : Type 0} where
  pub Fine-map :
      {s : State} {m : M A} {Q R : A → State → Type 0}
      → Fine kernel s m Q
      → ((a : A) (u : State) → Q a u → R a u)
      → Fine kernel s m R
  Fine-map {s} {m} h k = record { safe = h.safe; outcome = Outcome-map (m s).0 (m s).1 h.outcome k }

  pub Fine-quiet :
      {s : State} {m : M A}
      → IsQuiet kernel m
      → IsSafe kernel s.trace
      → Fine kernel s m (λ _ t. Grows kernel s.trace t.trace)
  Fine-quiet {s} {m} q h = record {
    safe = (q.at s).0.safe h;
    outcome =
        Outcome-Quiet (λ t. Grows kernel s.trace t.trace) (m s).0 (m s).1 (q.at s).1 (q.at s).0;
  }

  pub Fine-if :
      {s : State} (b : Bool) {m n : M A} {Q : A → State → Type 0}
      → (b ≡ true → Fine kernel s m Q)
      → (b ≡ false → Fine kernel s n Q)
      → Fine kernel s (if b then m else n) Q
  Fine-if true h k = h refl
  Fine-if false h k = k refl
