-- ===== src/Wait/Laws.antt =====
-- When the process goes on after a message to the controlling script.
use mm_regression.Base.{
  ℕ, zero, suc, ◌<◌, ◌≡◌, refl, sym, ap, List, [], ◌∷◌, ◌++◌, Bool, true, false, All, Bool-cases,
  inl, inr,
}
use mathlib.Core.Path.{subst}
use mm_regression.Base.Int.{is_zero, is_neg, is_minus_one}
use mm_regression.Base.Text.{CString}
use mm_regression.Machine.{Call, Kernel, State, done, call, emit}
use mm_regression.Machine.Post.{Post, Post-bind}
use mm_regression.Wait.{pprintf, pprintf_wait, wait_loop, checked_sigaction}

pub is_set : Call → Bool
is_set Call.set_wait_flag = true
is_set c = false

-- `arrived` counts the SIGUSR1 that have been handled when the calls so far are made. The handler
-- clears the flag, and nothing else does: a flag that was set and not set again reads 0 only if a
-- signal has arrived since.
pub record IsHandled (kernel : Kernel) (arrived : List Call → ℕ) : Type 0 where
  pub cleared :
      (before between : List Call)
      → All (λ c. is_set c ≡ false) between
      → is_zero (kernel (between ++ (Call.set_wait_flag ∷ before)) Call.wait_flag) ≡ true
      → arrived (Call.set_wait_flag ∷ before) < arrived (between ++ (Call.set_wait_flag ∷ before))

module _ (kernel : Kernel) (before : List Call) where
  -- The flag was set after the calls `before`, and not again.
  abbrev IsSince : List Call → Type 0
  IsSince t =
      (between : List Call) × (t ≡ between ++ (Call.set_wait_flag ∷ before))
      × All (λ c. is_set c ≡ false) between

  one_more : (c : Call) (t : List Call) → is_set c ≡ false → IsSince t → IsSince (c ∷ t)
  one_more c t e (between, same, none_set) = (c ∷ between, ap (λ u. c ∷ u) same, (e, none_set))

  sigaction-IsSince :
      (s : State) (c : Call)
      → is_set c ≡ false
      → IsSince s.trace
      → Post s (checked_sigaction kernel c) (λ _ t. IsSince t.trace)
  unfolding checked_sigaction call
  sigaction-IsSince s c e h = elim (Bool-cases (is_minus_one (kernel s.trace c))) [
    | inl failed ↦ record { at = rw failed tt }
    | inr put ↦ record { at = rw put (one_more c s.trace e h) }
  ]

  pprintf-IsSince :
      (s : State) (format : CString) (args : List ℕ)
      → IsSince s.trace
      → Post s (pprintf kernel format args) (λ _ t. IsSince t.trace)
  unfolding pprintf call emit is_set
  pprintf-IsSince s format args h =
      let told = one_more (Call.message format args) s.trace refl h in
      elim (Bool-cases s.testpipe) [
        | inl piped ↦ elim (Bool-cases (is_neg (kernel s.trace (Call.message format args)))) [
          | inl failed ↦ record { at = rw (piped, failed) tt }
          | inr written ↦ record {
            at = rw (piped, written) (one_more (Call.usleep 10000) _ refl told);
          }
        ]
        | inr no_pipe ↦ record { at = rw no_pipe told }
      ]

  -- The last call read the flag, after a signal that had arrived since the flag was set.
  abbrev pub IsWoken : (arrived : List Call → ℕ) → List Call → Type 0
  IsWoken arrived t =
      (until : List Call) × (t ≡ Call.wait_flag ∷ until)
      × (arrived (Call.set_wait_flag ∷ before) < arrived until)

  module _ (arrived : List Call → ℕ) (handled : IsHandled kernel arrived) where
    wait_loop-IsWoken :
        (rounds : ℕ) (s : State)
        → IsSince s.trace
        → Post s (wait_loop kernel rounds done) (λ _ t. IsWoken arrived t.trace)
    unfolding wait_loop call is_set
    wait_loop-IsWoken zero s h = record { at = tt }
    wait_loop-IsWoken (suc rounds) s h =
        elim (Bool-cases (is_zero (kernel s.trace Call.wait_flag))) [
          | inl cleared ↦
              let signal =
                handled.cleared before h.0 h.2
                  (subst (λ t. is_zero (kernel t Call.wait_flag) ≡ true) h.1 cleared) in
              record {
                at = rw cleared (
                  s.trace,
                  refl,
                  subst (λ t. arrived (Call.set_wait_flag ∷ before) < arrived t) (sym h.1) signal,
                );
              }
          | inr waiting ↦ record {
            at =
                rw waiting
                  (wait_loop-IsWoken rounds (record s { trace = Call.wait_flag ∷ s.trace })
                    (one_more Call.wait_flag s.trace refl h)).at;
          }
        ]

    put_back :
        (s : State)
        → IsWoken arrived s.trace
        → Post s
            (checked_sigaction kernel Call.sigaction_restore)
            (λ _ t. (u : List Call) × (t.trace ≡ Call.sigaction_restore ∷ u) × IsWoken arrived u)
    unfolding checked_sigaction call
    put_back s h = elim (Bool-cases (is_minus_one (kernel s.trace Call.sigaction_restore))) [
      | inl failed ↦ record { at = rw failed tt }
      | inr put ↦ record { at = rw put (s.trace, refl, h) }
    ]

-- The flag is cleared by the handler of SIGUSR1 alone. Where `pprintf_wait` returns, a SIGUSR1 has
-- arrived after the call had set the flag: one that came before the call does not count. Since then
-- the process has only read the flag and put back the old handling of the signal.
pub pprintf_wait-IsWoken :
    (kernel : Kernel) (arrived : List Call → ℕ) (rounds : ℕ) (format : CString) (args : List ℕ)
    (s : State)
    → IsHandled kernel arrived
    → Post s (pprintf_wait kernel rounds format args) (λ _ t.
      (u : List Call) × (t.trace ≡ Call.sigaction_restore ∷ u) × IsWoken kernel s.trace arrived u)
unfolding pprintf_wait emit is_set
pprintf_wait-IsWoken kernel arrived rounds format args s handled =
    let set : State = record s { trace = Call.set_wait_flag ∷ s.trace } in
    let body =
      Post-bind {s = set} (λ _ t. IsSince kernel s.trace t.trace)
        (sigaction-IsSince kernel s.trace set Call.sigaction_set refl ([], refl, tt))
        λ _ t h.
          Post-bind (λ _ u. IsSince kernel s.trace u.trace)
            (pprintf-IsSince kernel s.trace t format args h)
            λ _ u k.
              Post-bind (λ _ v. IsWoken kernel s.trace arrived v.trace)
                (wait_loop-IsWoken kernel s.trace arrived handled rounds u k)
                λ _ v w. record { at = (put_back kernel s.trace arrived handled v w).at } in
    record { at = body.at }
