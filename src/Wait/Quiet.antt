-- ===== src/Wait/Quiet.antt =====
-- The messages and the waits only ask the kernel.
use mm_regression.Base.{ℕ, zero, suc, List}
use mm_regression.Base.Int.{is_zero, is_neg, is_minus_one}
use mm_regression.Base.Text.{CString}
use mm_regression.Machine.{Call, Kernel, ok, exit, running, M, call, done}
use mm_regression.Machine.Touched.{
  IsQuiet, IsQuiet-stop, IsQuiet-gets, IsQuiet-done, IsQuiet-call, IsQuiet-emit, IsQuiet-if,
  IsQuiet-bind, Quiet,
}
use mm_regression.Wait.{pprintf, pprintf_wait, checked_sigaction, wait_loop}

module _ (kernel : Kernel) where
  ends_early : {A : Type 0} → IsQuiet kernel {A = A} (λ s. (exit, s))
  ends_early = IsQuiet-stop exit (λ e. cc)

  pub pprintf-IsQuiet :
      (format : CString) (args : List ℕ) → IsQuiet kernel (pprintf kernel format args)
  unfolding pprintf
  pprintf-IsQuiet format args =
      IsQuiet-bind (λ s. (ok s.testpipe, s)) _ (IsQuiet-gets (λ s. s.testpipe))
        λ piped.
          IsQuiet-bind (call kernel (Call.message format args)) _ (IsQuiet-call _ tt) λ written.
            IsQuiet-if piped (IsQuiet-if (is_neg written) ends_early (IsQuiet-emit _ tt))
              IsQuiet-done

  checked_sigaction-IsQuiet : (c : Call) → Quiet c → IsQuiet kernel (checked_sigaction kernel c)
  unfolding checked_sigaction
  checked_sigaction-IsQuiet c q =
      IsQuiet-bind (call kernel c) _ (IsQuiet-call c q)
        (λ r. IsQuiet-if (is_minus_one r) ends_early IsQuiet-done)

  wait_loop-IsQuiet :
      (rounds : ℕ) (body : M (Unit {0}))
      → IsQuiet kernel body
      → IsQuiet kernel (wait_loop kernel rounds body)
  unfolding wait_loop
  wait_loop-IsQuiet zero body h = IsQuiet-stop running (λ e. cc)
  wait_loop-IsQuiet (suc rounds) body h =
      IsQuiet-bind (call kernel Call.wait_flag) _ (IsQuiet-call _ tt) λ waiting.
        IsQuiet-if (is_zero waiting) IsQuiet-done
          (IsQuiet-bind body _ h (λ _. wait_loop-IsQuiet rounds body h))

  pub pprintf_wait-IsQuiet :
      (rounds : ℕ) (format : CString) (args : List ℕ)
      → IsQuiet kernel (pprintf_wait kernel rounds format args)
  unfolding pprintf_wait
  pprintf_wait-IsQuiet rounds format args =
      IsQuiet-bind _ _ (IsQuiet-emit Call.set_wait_flag tt) λ _.
        IsQuiet-bind _ _ (checked_sigaction-IsQuiet Call.sigaction_set tt) λ _.
          IsQuiet-bind _ _ (pprintf-IsQuiet format args) λ _.
            IsQuiet-bind _ _ (wait_loop-IsQuiet rounds done IsQuiet-done)
              λ _. checked_sigaction-IsQuiet Call.sigaction_restore tt
