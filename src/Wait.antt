-- ===== src/Wait.antt =====
-- test_core/lib/include.h: messages to the controlling script and the waits for its SIGUSR1, and
-- the waits of lib/include.h before and after an operation. `rounds` bounds the rounds of a wait.
pub mod Laws
pub mod Quiet
pub mod Tests
use mm_regression.Base.{
  ℕ, zero, suc, List, [], ◌++◌, Option, none, some, if◌then◌else◌, ◌%◌, ◌^◌, get_elem?,
}
use mm_regression.Base.Int.{is_neg, is_minus_one, is_zero}
use mm_regression.Base.Text.{CString, codes}
use mm_regression.Libc.{strtoul}
use mm_regression.Opc.{OpControl, opc_get_value}
use mm_regression.Machine.{
  Call, Kernel, exit, running, M, stop, ◌>>=◌, ◌>>◌, done, gets, call, emit, into_buffer,
}

module _ (kernel : Kernel) where
  unfoldable pub pprintf : CString → List ℕ → M (Unit {0})
  pprintf format args = do
    piped ← gets (λ s. s.testpipe)
    written ← call kernel (Call.message format args)
    if piped then (if is_neg written then stop exit else emit kernel (Call.usleep 10000)) else done

  -- a `sigaction` that must not fail
  checked_sigaction : Call → M (Unit {0})
  checked_sigaction c = do r ← call kernel c; if is_minus_one r then stop exit else done

  -- `while (pprintf_wait_flag) body`
  wait_loop : (rounds : ℕ) → M (Unit {0}) → M (Unit {0})
  wait_loop zero body = stop running
  wait_loop (suc rounds) body = do
    waiting ← call kernel Call.wait_flag
    if is_zero waiting then done else (do body; wait_loop rounds body)

  module _ (rounds : ℕ) where
    pub pprintf_wait : CString → List ℕ → M (Unit {0})
    unfolding pprintf checked_sigaction wait_loop
    pprintf_wait format args = do
      emit kernel Call.set_wait_flag
      checked_sigaction Call.sigaction_set
      pprintf format args
      wait_loop rounds done
      checked_sigaction Call.sigaction_restore

    -- `none` is a null `func`.
    pub pprintf_wait_func : Option (M (Unit {0})) → CString → List ℕ → M (Unit {0})
    unfolding pprintf checked_sigaction wait_loop
    pprintf_wait_func func format args = do
      emit kernel Call.set_wait_flag
      checked_sigaction Call.sigaction_set
      pprintf format args
      wait_loop rounds (elim func [ none ↦ emit kernel (Call.usleep 1000) | some body ↦ body ])
      checked_sigaction Call.sigaction_restore

    -- `opc->tag`; the index of a value is that of an argument.
    tag_of : OpControl → Option CString
    tag_of opc = elim opc.tag [
      | none ↦ none
      | some i ↦ elim (get_elem? opc.args i) [ none ↦ none | some a ↦ some a.value ]
    ]

    wait_key : CString → OpControl → CString
    unfolding tag_of
    wait_key when opc = elim (tag_of opc) [
      | none ↦ when ++ opc.name
      | some tag ↦ when ++ (opc.name ++ (codes "_" ++ tag))
    ]

    -- `do_wait_before` and `do_wait_after` differ in the key and in the text that begins the
    -- message. The text is formatted into 256 bytes.
    wait_at : (key when : CString) → OpControl → M (Unit {0})
    unfolding wait_key
    wait_at key when opc = do
      text ← into_buffer 256 (wait_key when opc)
      elim (opc_get_value opc key) [
        | none ↦ done
        | some sleep ↦ emit kernel (Call.usleep (strtoul sleep % 2 ^ 32))
      ]
      pprintf_wait (text ++ codes "\n") []

    pub do_wait_before : OpControl → M (Unit {0})
    unfolding wait_at
    do_wait_before opc = wait_at (codes "wait_before") (codes "before_") opc

    pub do_wait_after : OpControl → M (Unit {0})
    unfolding wait_at
    do_wait_after opc = wait_at (codes "wait_after") (codes "after_") opc
