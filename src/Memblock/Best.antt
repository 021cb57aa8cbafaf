-- ===== src/Memblock/Best.antt =====
-- `memblock_check` looks for a block with the most matched pages.
use mm_regression.Base.{ℕ, ◌*◌, ◌≤◌, ◌<◌, ◌≡◌, ◌⊎◌, List, false, none, some, length}
use mm_regression.Base.Int.{is_neg}
use mm_regression.Base.Text.{CString}
use mm_regression.Machine.Total.{Total}
use mm_regression.Machine.{Call, as_word, Kernel, sext, ◌>>◌}
use mm_regression.PageFlags.{Filters}
use mm_regression.Memblock.{Pageflags, Choice, matched_pages, asks_compound}

-- As many words of /proc/kpageflags are read as asked for, and messages reach the script.
pub record IsReadable (kernel : Kernel) : Type 0 where
  pub reads :
      (t : List Call) (index count : ℕ)
      → is_neg (kernel t (Call.pread_kpageflags index count)) ≡ false
  pub whole :
      (t : List Call) (index count : ℕ)
      → as_word (kernel t (Call.pread_kpageflags index count)) ≡ count * 8
  pub tells :
      (t : List Call) (format : CString) (args : List ℕ)
      → is_neg (kernel t (Call.message format args)) ≡ false

module _ (file : Pageflags) (filters : Filters) (size : ℕ)
    (as_asked : (index : ℕ) → length (file.words index size) ≡ size) where
  -- The matched pages of the block `i`.
  abbrev pub matched : ℕ → ℕ
  matched i = matched_pages filters (asks_compound filters) (file.words (sext (i * size)) size)

  -- `c` is none, or a block from `lo` below `hi` with a matched page.
  abbrev pub IsChosen : (lo hi : ℕ) → Choice → Type 0
  IsChosen lo hi c =
      (c ≡ (none, 0))
      ⊎ ((k : ℕ) × (c ≡ (some k, matched k)) × (lo ≤ k) × (k < hi) × (0 < matched k))

  -- No block from `lo` below `hi` has more matched pages.
  abbrev pub IsMost : (lo hi : ℕ) → Choice → Type 0
  IsMost lo hi c = (k : ℕ) → lo ≤ k → k < hi → matched k ≤ c.1

  -- `c` is a block with the most matched pages, or one that is full.
  pub record IsBest (lo hi : ℕ) (c : Choice) : Type 0 where
    pub chosen : IsChosen lo hi c
    pub most : (c.1 ≡ size) ⊎ IsMost lo hi c
