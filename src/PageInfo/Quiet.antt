-- ===== src/PageInfo/Quiet.antt =====
-- The search for the flags of a page only asks the kernel, and has no undefined behaviour for the
-- flags that it can test.
use mm_regression.Base.{
  ℕ, ◌/◌, ◌%◌, ◌-◌, ◌^◌, ◌<◌, List, [], ◌∷◌, not, ltb, ◌==◌, length, if◌then◌else◌, lt→ltb,
}
use mm_regression.Base.Int.{ℤ, is_neg}
use mm_regression.Machine.{
  Call, Kernel, exit, fault, M, stop, done, pure, ◌>>=◌, ◌>>◌, call, emit, as_word,
}
use mm_regression.Machine.Touched.{
  IsQuiet, IsQuiet-stop, IsQuiet-pure, IsQuiet-done, IsQuiet-call, IsQuiet-emit, IsQuiet-if,
  IsQuiet-bind, Quiet,
}
use mm_regression.PageFlags.{pagemap_pfn}
use mm_regression.PageInfo.{
  check_kpflags, get_my_pfn, get_my_pflags, page_index, open_or_exit, do_u64_read, checked_close,
}

module _ (kernel : Kernel) where
  ends_early : {A : Type 0} → IsQuiet kernel {A = A} (λ s. (exit, s))
  ends_early = IsQuiet-stop exit (λ e. cc)

  open_or_exit-IsQuiet : (c : Call) → Quiet c → IsQuiet kernel (open_or_exit kernel c)
  unfolding open_or_exit
  open_or_exit-IsQuiet c q =
      IsQuiet-bind (call kernel c) _ (IsQuiet-call c q)
        (λ fd. IsQuiet-if (is_neg fd) ends_early (IsQuiet-pure fd))

  do_u64_read-IsQuiet :
      (c : Call) (index : ℕ) (words : List ℕ)
      → Quiet c
      → IsQuiet kernel (do_u64_read kernel c index words)
  unfolding do_u64_read
  do_u64_read-IsQuiet c index words q = IsQuiet-if (ltb ((2 ^ 64 - 1) / 8) index) ends_early (
      IsQuiet-bind (call kernel c) _ (IsQuiet-call c q) λ bytes.
        IsQuiet-if (is_neg bytes) ends_early
          (IsQuiet-if (not (as_word bytes % 8 == 0)) ends_early (IsQuiet-pure _)))

  page_index-IsQuiet : (vaddr : ℕ) → IsQuiet kernel (page_index kernel vaddr)
  unfolding page_index
  page_index-IsQuiet vaddr =
      IsQuiet-bind (call kernel Call.getpagesize) _ (IsQuiet-call _ tt) (λ size. IsQuiet-pure _)

  checked_close-IsQuiet : (fd : ℤ) → IsQuiet kernel (checked_close kernel fd)
  unfolding checked_close
  checked_close-IsQuiet fd =
      IsQuiet-bind (call kernel (Call.close fd)) _ (IsQuiet-call _ tt)
        (λ r. IsQuiet-if (is_neg r) ends_early IsQuiet-done)

  -- After the test on their number there is a word.
  one_word :
      (fd : ℤ) (words : List ℕ)
      → IsQuiet kernel (do
        if not (length words == 1) then stop exit else done
        checked_close kernel fd
        elim words as (λ _. M ℕ) [ [] ↦ stop fault | word ∷ more ↦ pure (pagemap_pfn word) ])
  one_word fd [] = ends_early
  one_word fd (word ∷ more) =
      IsQuiet-bind _ _ (IsQuiet-if (not (length (word ∷ more) == 1)) ends_early IsQuiet-done)
        λ _. IsQuiet-bind _ _ (checked_close-IsQuiet fd) (λ _. IsQuiet-pure _)

  low_word :
      (words : List ℕ)
      → IsQuiet kernel (elim words as (λ _. M ℕ) [
        | [] ↦ do any ← call kernel Call.no_return; pure (as_word any % 2 ^ 32)
        | word ∷ more ↦ pure (word % 2 ^ 32)
      ])
  low_word [] =
      IsQuiet-bind (call kernel Call.no_return) _ (IsQuiet-call _ tt) (λ any. IsQuiet-pure _)
  low_word (word ∷ more) = IsQuiet-pure _

  module _ (pagemap kpageflags : (index count : ℕ) → List ℕ) where
    get_my_pfn-IsQuiet : (vaddr : ℕ) → IsQuiet kernel (get_my_pfn kernel pagemap vaddr)
    unfolding get_my_pfn
    get_my_pfn-IsQuiet vaddr = IsQuiet-bind (call kernel Call.getpid) _ (IsQuiet-call _ tt) λ self.
        IsQuiet-bind _ _ (open_or_exit-IsQuiet (Call.open_pagemap (as_word self)) tt) λ fd.
          IsQuiet-bind _ _ (page_index-IsQuiet vaddr) λ index.
            IsQuiet-bind _ _
              (do_u64_read-IsQuiet (Call.pread_pagemap index 1) index (pagemap index 1) tt)
              (one_word fd)

    get_my_pflags-IsQuiet : (pfn : ℕ) → IsQuiet kernel (get_my_pflags kernel kpageflags pfn)
    unfolding get_my_pflags
    get_my_pflags-IsQuiet pfn =
        IsQuiet-bind _ _ (open_or_exit-IsQuiet Call.open_kpageflags tt) λ fd.
          IsQuiet-bind _ _
            (do_u64_read-IsQuiet (Call.pread_kpageflags pfn 1) pfn (kpageflags pfn 1) tt)
            λ words.
              IsQuiet-bind (emit kernel (Call.close fd)) _ (IsQuiet-emit _ tt) (λ _. low_word words)

    pub check_kpflags-IsQuiet :
        (vaddr kpf : ℕ)
        → kpf < 31
        → IsQuiet kernel (check_kpflags kernel kpageflags pagemap vaddr kpf)
    unfolding check_kpflags
    check_kpflags-IsQuiet vaddr kpf h = IsQuiet-bind _ _ (get_my_pfn-IsQuiet vaddr) λ pfn.
        IsQuiet-bind _ _ (get_my_pflags-IsQuiet pfn) λ flags. rw (lt→ltb kpf 31 h) (IsQuiet-pure _)
