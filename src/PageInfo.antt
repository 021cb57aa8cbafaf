-- ===== src/PageInfo.antt =====
-- lib/pfn.h: what procfs tells of a page, and the files by which a page is taken offline. The
-- contents of the files of procfs are parameters: the words from an index on, as many as asked.
pub mod Hex
pub mod Laws
pub mod Quiet
pub mod Tests
use mm_regression.Base.{
  ℕ, zero, suc, ◌+◌, ◌*◌, ◌/◌, ◌%◌, ◌-◌, ◌^◌, List, [], ◌∷◌, ◌++◌, map, Option, none, some, not,
  ltb, ◌==◌, bit_and, length, get_elem?, take, if◌then◌else◌,
}
use mm_regression.Base.Int.{ℤ, pos, negsuc, is_neg}
use mm_regression.Base.Text.{CString, codes}
use mm_regression.Machine.{
  Call, Kernel, exit, fault, M, pure, stop, ◌>>=◌, ◌>>◌, done, call, emit, as_word, sext,
}
use mm_regression.PageFlags.{pagemap_pfn}

-- A digit of `%lx`.
abbrev pub hex_digit : ℕ → ℕ
hex_digit d = if ltb d 10 then b'0' + d else b'a' + (d - 10)

-- The digits of a number below `16 ^ fuel`, before `rest`.
hex_digits : (fuel n : ℕ) → (rest : CString) → CString
hex_digits zero n rest = rest
hex_digits (suc fuel) n rest =
    let more = hex_digits fuel (n / 16) (hex_digit (n % 16) ∷ rest) in
    if ltb n 16 then hex_digit n ∷ rest else more

-- `0x%lx`, before `rest`
pub print_hex : ℕ → (rest : CString) → CString
unfolding hex_digits
print_hex n rest = b'0' ∷ b'x' ∷ hex_digits 16 n rest

module _ (kernel : Kernel) where
  -- The words that `pread` has filled, at most as many as asked.
  pub do_u64_read : (reading : Call) → (index : ℕ) → (words : List ℕ) → M (List ℕ)
  do_u64_read reading index words = if ltb ((2 ^ 64 - 1) / 8) index then stop exit else (do
    bytes ← call kernel reading
    if is_neg bytes
        then stop exit
        else if not (as_word bytes % 8 == 0)
        then stop exit
        else pure (take (as_word bytes / 8) words))

  open_or_exit : Call → M ℤ
  open_or_exit c = do fd ← call kernel c; if is_neg fd then stop exit else pure fd

  checked_close : ℤ → M (Unit {0})
  checked_close fd = do r ← call kernel (Call.close fd); if is_neg r then stop exit else done

  -- An address in pages.
  page_index : (vaddr : ℕ) → M ℕ
  page_index vaddr = do size ← call kernel Call.getpagesize; pure (vaddr / as_word size)

  -- `pid` is 0 for the process itself.
  which_pid : (pid : ℕ) → M ℕ
  which_pid pid =
      if pid == 0 then (do self ← call kernel Call.getpid; pure (as_word self)) else pure pid

  module _ (pagemap : (index count : ℕ) → List ℕ) where
    -- What is stored in `buf`; its length is the result.
    pub get_pfn : (vaddr pid count : ℕ) → M (List ℕ)
    unfolding which_pid page_index open_or_exit do_u64_read checked_close
    get_pfn vaddr pid count = do
      index ← page_index vaddr
      pid' ← which_pid pid
      fd ← open_or_exit (Call.open_pagemap pid')
      words ← do_u64_read (Call.pread_pagemap index count) index (pagemap index count)
      if ltb (length words) count then stop exit else done
      checked_close fd
      pure (map pagemap_pfn words)

    pub get_my_pfn : (vaddr : ℕ) → M ℕ
    unfolding page_index open_or_exit do_u64_read checked_close
    get_my_pfn vaddr = do
      self ← call kernel Call.getpid
      fd ← open_or_exit (Call.open_pagemap (as_word self))
      index ← page_index vaddr
      words ← do_u64_read (Call.pread_pagemap index 1) index (pagemap index 1)
      if not (length words == 1) then stop exit else done
      checked_close fd
      elim words [ [] ↦ stop fault | word ∷ more ↦ pure (pagemap_pfn word) ]

  -- `pages` is read before it is written, and the offset is the page frame number itself.
  pub get_pflags : (pfn count : ℕ) → M ℕ
  unfolding open_or_exit
  get_pflags pfn count = do
    fd ← open_or_exit Call.open_kpageflags
    pages ← call kernel Call.no_return
    bytes ← call kernel (Call.pread fd (as_word pages * 8 % 2 ^ 64) pfn)
    emit kernel (Call.close fd)
    pure (if is_neg bytes then 0 else as_word bytes / 8)

  -- What is stored in `buf`: one word at most, whatever `count` is.
  pub get_pcount : (kpagecount : (index count : ℕ) → List ℕ) → (pfn count : ℕ) → M (List ℕ)
  unfolding open_or_exit do_u64_read
  get_pcount kpagecount pfn count = do
    fd ← open_or_exit Call.open_kpagecount
    words ← do_u64_read (Call.pread_kpagecount pfn 1) pfn (kpagecount pfn 1)
    emit kernel (Call.close fd)
    pure words

  -- What is printed is left out. A page with no count leaves `ps->pcount` indeterminate.
  pub get_pagestat : (pagemap kpagecount : (index count : ℕ) → List ℕ) → (vaddr : ℕ) → M (Unit {0})
  unfolding get_pfn get_pflags get_pcount
  get_pagestat pagemap kpagecount vaddr = do
    pid ← call kernel Call.getpid
    pfns ← get_pfn pagemap vaddr (as_word pid) 1
    elim pfns [
      | [] ↦ stop fault
      | pfn ∷ more ↦ do flags ← get_pflags pfn 1; counts ← get_pcount kpagecount pfn 1; done
    ]

  module _ (kpageflags : (index count : ℕ) → List ℕ) where
    -- The low 32 bits of the word, which is indeterminate where nothing was read.
    pub get_my_pflags : (pfn : ℕ) → M ℕ
    unfolding open_or_exit do_u64_read
    get_my_pflags pfn = do
      fd ← open_or_exit Call.open_kpageflags
      words ← do_u64_read (Call.pread_kpageflags pfn 1) pfn (kpageflags pfn 1)
      emit kernel (Call.close fd)
      elim words [
        | [] ↦ do any ← call kernel Call.no_return; pure (as_word any % 2 ^ 32)
        | word ∷ more ↦ pure (word % 2 ^ 32)
      ]

    -- `1 << kpf` is an `int`, and so is the result.
    pub check_kpflags : (pagemap : (index count : ℕ) → List ℕ) → (vaddr kpf : ℕ) → M ℕ
    unfolding get_my_pfn get_my_pflags
    check_kpflags pagemap vaddr kpf = do
      pfn ← get_my_pfn pagemap vaddr
      kpflags ← get_my_pflags pfn
      if ltb kpf 31 then pure (bit_and (sext kpflags) (2 ^ kpf) % 2 ^ 32) else stop fault

  -- What both functions do with the file and the text. After a failed `write` the file stays open.
  kick : (file : Call) → (text : CString) → M ℕ
  kick file text = do
    fd ← call kernel file
    if is_neg fd then pure 1 else do
      written ← call kernel (Call.write_text fd text)
      if is_neg written then pure 1 else (do emit kernel (Call.close fd); pure 0)

  pub kick_hard_offline : (pfn : ℕ) → M ℕ
  unfolding kick print_hex
  kick_hard_offline pfn =
      kick (Call.open_wo (codes "/sys/kernel/debug/hwpoison/corrupt-pfn"))
        (print_hex pfn (codes "\n"))

  pub kick_soft_offline : (pfn : ℕ) → M ℕ
  unfolding kick print_hex
  kick_soft_offline pfn =
      kick (Call.open_wo (codes "/sys/devices/system/memory/soft_offline_page"))
        (print_hex pfn (codes "000\n"))
