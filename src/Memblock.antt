-- ===== src/Memblock.antt =====
-- lib/include.h: the search for the memory block that -L hotremove asks the script to remove.
pub mod Order
pub mod Best
pub mod Tests
use mm_regression.Base.{
  ℕ, zero, suc, ◌+◌, ◌-◌, ◌*◌, ◌/◌, ◌%◌, ◌^◌, List, [], ◌∷◌, Option, none, some, Bool, true, false,
  ltb, leb, take, drop, ◌++◌, ◌==◌, not, ◌&&◌, ◌||◌, if◌then◌else◌,
}
use mm_regression.Base.Int.{ℤ, is_neg}
use mm_regression.Base.Text.{codes}
use mm_regression.Abi.{page_shift}
use mm_regression.PageFlags.{Filters, bit_mask_ok, has}
use mm_regression.PageFlags.Names
use mm_regression.PageFlags.Names.{bit}
use mm_regression.Machine.{
  Call, Kernel, State, exit, fault, M, pure, stop, ◌>>=◌, ◌>>◌, done, gets, puts, call, emit,
  as_word, sext,
}
use mm_regression.Wait.{pprintf}

-- The loop of `get_memblk_order` from the shift `i` on; where no shift fits, the order stays 0.
order_loop : (left i size : ℕ) → ℕ
order_loop zero i size = 0
order_loop (suc left) i size =
    let rest = order_loop left (i + 1) size in if size / 2 ^ i == 1 then i else rest

pub order_of : (size : ℕ) → ℕ
order_of size = order_loop 64 0 size

-- The pages of a block that the filter lets through; each counts for 512 with `compound`.
pub matched_pages : Filters → (compound : Bool) → List ℕ → ℕ
matched_pages filters compound [] = 0
matched_pages filters compound (flags ∷ pageflags) =
    let rest = matched_pages filters compound pageflags in
    if bit_mask_ok filters flags then (if compound then 512 else 1) + rest else rest

-- `pmemblk` (`none` for -1) and `max_matched_pages`
abbrev pub Choice : Type 0
Choice = Option ℕ × ℕ

-- `opt_bits[0] & BIT(COMPOUND_HEAD)`, which is 0 where there is no filter
abbrev pub asks_compound : Filters → Bool
asks_compound [] = false
asks_compound (f ∷ fs) = has f.1 (bit Names.compound_head)

-- What one block changes.
unfoldable pub take_better : Choice → (i matched : ℕ) → Choice
take_better (best, most) i matched = if ltb most matched then (some i, matched) else (best, most)

-- What is not under the program's control: the words of /proc/kpageflags, as many as asked from an
-- index on, and the words that `malloc` leaves in an array.
pub record Pageflags : Type 0 where
  pub words : (index count : ℕ) → List ℕ
  pub junk : (count : ℕ) → List ℕ

module _ (kernel : Kernel) (flags : Pageflags) where
  get_memblk_size : M ℕ
  get_memblk_size = do
    size ← gets (λ s. s.memblk_size)
    if size == 0
        then (do
          read ← call kernel Call.read_block_size
          puts (λ s. record s { memblk_size = as_word read })
          pure (as_word read))
        else pure size

  get_memblk_order : M ℕ
  unfolding get_memblk_size order_of
  get_memblk_order = do
    order ← gets (λ s. s.memblk_order)
    if order == 0
        then (do
          size ← get_memblk_size
          puts (λ s. record s { memblk_order = order_of size })
          pure (order_of size))
        else pure order

  -- `(spanned + start_pfn) >> (order - PAGE_SHIFT)`, of type `int`: undefined for a shift
  -- that is out of range and for a sum that overflows
  get_max_memblock : M ℕ
  unfolding get_memblk_order
  get_max_memblock = do
    spanned ← call kernel Call.zoneinfo_spanned
    start_pfn ← call kernel Call.zoneinfo_start_pfn
    order ← get_memblk_order
    let pages = as_word spanned + as_word start_pfn
    let shift = order - page_shift
    if ltb order page_shift || (leb 32 shift || leb (2 ^ 31) pages)
        then stop fault
        else pure (pages / 2 ^ shift)

  check_compound : M Bool
  check_compound = gets (λ s. asks_compound s.filters)

  -- `kpageflags_read` of one block into the array `pageflags` of `size` words, which ends the process
  -- on an index that overflows, on an error and on a partial word. What a short read does not reach
  -- stays as it was. The result is the array.
  kpageflags_read : (pageflags : List ℕ) → (index size : ℕ) → M (List ℕ)
  kpageflags_read pageflags index size = if ltb ((2 ^ 64 - 1) / 8) index then stop exit else (do
    bytes ← call kernel (Call.pread_kpageflags index size)
    if is_neg bytes
        then stop exit
        else if not (as_word bytes % 8 == 0)
        then stop exit
        else pure (
            take (as_word bytes / 8) (flags.words index size)
            ++ drop (as_word bytes / 8) pageflags))

  -- The body of the loop for the block `i`: its matched pages, and the array.
  pub scan_block : (size i : ℕ) → (pageflags : List ℕ) → M (ℕ × List ℕ)
  unfolding kpageflags_read check_compound
  scan_block size i pageflags = do
    filters ← gets (λ s. s.filters)
    compound ← check_compound
    pageflags' ← kpageflags_read pageflags (sext (i * size)) size
    let matched = matched_pages filters compound pageflags'
    if ltb 0 matched
        then pprintf kernel (codes "memblock:%d, matched:%d\n") (i ∷ matched ∷ [])
        else done
    pure (matched, pageflags')

  -- The loop over the blocks from `i` on. A better block that is full of target pages ends it.
  pub scan_blocks : (size left i : ℕ) → (pageflags : List ℕ) → Choice → M Choice
  unfolding scan_block take_better
  scan_blocks size zero i pageflags c = pure c
  scan_blocks size (suc left) i pageflags c = do
    (matched, pageflags') ← scan_block size i pageflags
    if ltb c.1 matched && matched == size
        then pure (take_better c i matched)
        else scan_blocks size left (i + 1) pageflags' (take_better c i matched)

  pub memblock_check : M ℕ
  unfolding scan_blocks get_max_memblock get_memblk_size
  memblock_check = do
    max_memblock ← get_max_memblock
    bytes ← get_memblk_size
    let size = bytes / 2 ^ page_shift
    emit kernel Call.open_kpageflags
    c ← scan_blocks size (max_memblock - 2) 2 (flags.junk size) (none, 0)
    elim c.0 [ none ↦ stop exit | some pmemblk ↦ pure pmemblk ]
