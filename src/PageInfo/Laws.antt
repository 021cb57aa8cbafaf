-- ===== src/PageInfo/Laws.antt =====
-- What the callers of lib/pfn.h learn of a page, and what the kernel is told.
use mm_regression.Base.{
  take, ℕ, zero, suc, ◌*◌, ◌-◌, ◌/◌, ◌%◌, ◌^◌, ◌<◌, ◌≤◌, ◌≡◌, refl, ◌∙◌, ap, arith, List, [], ◌∷◌,
  map, length, ltb, ◌==◌, Bool-cases, ◌⊎◌, inl, inr,
}
use mm_regression.Base.Int.{ℤ, is_neg}
use mm_regression.Base.Text.{CString, codes}
use mm_regression.Libc.{strtoul}
use mm_regression.Machine.{Call, Kernel, State, call, emit, as_word}
use mm_regression.Machine.Post.{Post, Post-bind, Post-any}
use mm_regression.PageFlags.{pagemap_pfn}
use mm_regression.PageFlags.Frame.{frame_of, pagemap_pfn_lem}
use mm_regression.PageInfo.{
  do_u64_read, open_or_exit, checked_close, page_index, which_pid, get_pfn, kick, kick_hard_offline,
  kick_soft_offline,
}
use mm_regression.PageInfo.Hex.{strtoul-print_hex, strtoul-print_hex_page}

-- The file was told the number `n`, and then closed.
pub record IsTold (file : Call) (n : ℕ) (before after : List Call) : Type 0 where
  pub fd : ℤ
  pub text : CString
  pub calls : after ≡ Call.close fd ∷ Call.write_text fd text ∷ file ∷ before
  pub number : strtoul text ≡ n

take_all : (m : ℕ) (ws : List ℕ) → length ws ≤ length (take m ws) → take m ws ≡ ws
take_all zero [] h = refl
take_all zero (w ∷ ws) h = absurd (omega arith)
take_all (suc m) [] h = refl
take_all (suc m) (w ∷ ws) h = ap (λ t. w ∷ t) (take_all m ws (omega arith))

map-frame_of : (ws : List ℕ) → map pagemap_pfn ws ≡ map frame_of ws
map-frame_of [] = refl
map-frame_of (w ∷ ws) = rw (pagemap_pfn_lem w, map-frame_of ws) refl

frames :
    (pagemap : (index count : ℕ) → List ℕ) (count index : ℕ) (ws : List ℕ)
    → (m : ℕ) × (ws ≡ take m (pagemap index count))
    → count ≤ length ws
    → length (pagemap index count) ≡ count
    → map pagemap_pfn ws ≡ map frame_of (pagemap index count)
frames pagemap count index ws (m, taken) enough full =
    let long : length (pagemap index count) ≤ length (take m (pagemap index count)) =
      omega (arith, ap length taken) in
    ap (map pagemap_pfn) (taken ∙ take_all m (pagemap index count) long)
    ∙ map-frame_of (pagemap index count)

module _ (kernel : Kernel) where
  do_u64_read-take :
      (s : State) (reading : Call) (index : ℕ) (words : List ℕ)
      → Post s (do_u64_read kernel reading index words) (λ ws _. (m : ℕ) × (ws ≡ take m words))
  unfolding do_u64_read call
  do_u64_read-take s reading index words =
      let bytes = kernel s.trace reading in
      elim (Bool-cases (ltb ((2 ^ 64 - 1) / 8) index)) [
        | inl overflow ↦ record { at = rw overflow tt }
        | inr small ↦ elim (Bool-cases (is_neg bytes)) [
          | inl failed ↦ record { at = rw (small, failed) tt }
          | inr read_some ↦ elim (Bool-cases (as_word bytes % 8 == 0)) [
            | inl whole ↦ record { at = rw (small, read_some, whole) (as_word bytes / 8, refl) }
            | inr partial ↦ record { at = rw (small, read_some, partial) tt }
          ]
        ]
      ]

  page_index_lem :
      (s : State) (vaddr : ℕ)
      → Post s
          (page_index kernel vaddr)
          (λ index _. index ≡ vaddr / as_word (kernel s.trace Call.getpagesize))
  unfolding page_index call
  page_index_lem s vaddr = record { at = refl }

  -- Where pagemap has a word for each page, `get_pfn` returns, if it returns, the frames of just
  -- the pages asked for, each as the word of the page says.
  pub get_pfn-frame_of :
      (pagemap : (index count : ℕ) → List ℕ) (s : State) (vaddr pid count : ℕ)
      → ((index : ℕ) → length (pagemap index count) ≡ count)
      → Post s (get_pfn kernel pagemap vaddr pid count) (λ pfns _.
        pfns ≡ map frame_of (pagemap (vaddr / as_word (kernel s.trace Call.getpagesize)) count))
  unfolding get_pfn
  get_pfn-frame_of pagemap s vaddr pid count full =
      let same : (index : ℕ)
          → index ≡ vaddr / as_word (kernel s.trace Call.getpagesize)
          → map frame_of (pagemap index count)
            ≡ map frame_of (pagemap (vaddr / as_word (kernel s.trace Call.getpagesize)) count) =
        λ index e. ap (λ i. map frame_of (pagemap i count)) e in
      let all =
        Post-bind (λ index _. index ≡ vaddr / as_word (kernel s.trace Call.getpagesize))
          (page_index_lem s vaddr)
          λ index t e.
            Post-bind (λ _ _. Unit {0}) (Post-any t (which_pid kernel pid))
              λ self t1 h1.
                Post-bind (λ _ _. Unit {0})
                  (Post-any t1 (open_or_exit kernel (Call.open_pagemap self)))
                  λ fd t2 h2.
                    Post-bind (λ ws _. (m : ℕ) × (ws ≡ take m (pagemap index count)))
                      (do_u64_read-take t2 (Call.pread_pagemap index count) index
                        (pagemap index count))
                      λ ws t3 h. elim (Bool-cases (ltb (length ws) count)) [
                        | inl short ↦ record { at = rw short tt }
                        | inr enough ↦ record {
                          at =
                              rw enough
                                (Post-bind (λ _ _. Unit {0}) (Post-any t3 (checked_close kernel fd))
                                  λ _ t4 h4. record {
                                    at =
                                        frames pagemap count index ws h (ground arith) (full index)
                                        ∙ same index e;
                                  }).at;
                        }
                      ] in
      record { at = all.at }

  kick-IsTold :
      (s : State) (file : Call) (text : CString) (n : ℕ)
      → strtoul text ≡ n
      → Post s (kick kernel file text) (λ r t. ((r ≡ 0) × IsTold file n s.trace t.trace) ⊎ (r ≡ 1))
  unfolding kick call emit
  kick-IsTold s file text n e = elim (Bool-cases (is_neg (kernel s.trace file))) [
    | inl absent ↦ record { at = rw absent (inr refl) }
    | inr opened ↦
        elim (Bool-cases
          (is_neg (kernel (file ∷ s.trace) (Call.write_text (kernel s.trace file) text)))) [
            | inl failed ↦ record { at = rw (opened, failed) (inr refl) }
            | inr written ↦ record {
              at =
                  rw (opened, written)
                    (inl (refl, record { fd = _; text = text; calls = refl; number = e }));
            }
          ]
  ]

-- `kick_hard_offline` and `kick_soft_offline` return 0 or 1, if they return, for a page whose address
-- is below 2^64. Where it is 0, they have written a text that `strtoul` reads as the number of the
-- page frame, and as the physical address of the page, and have closed the file.
pub kick_offline-IsTold :
    (kernel : Kernel) (s : State) (pfn : ℕ)
    → pfn * 4096 < 2 ^ 64
    → Post s (kick_hard_offline kernel pfn) (λ r t.
      ((r ≡ 0)
        × IsTold
            (Call.open_wo (codes "/sys/kernel/debug/hwpoison/corrupt-pfn"))
            pfn
            s.trace
            t.trace)
      ⊎ (r ≡ 1))
      × Post s (kick_soft_offline kernel pfn) (λ r t.
        ((r ≡ 0)
          × IsTold
              (Call.open_wo (codes "/sys/devices/system/memory/soft_offline_page"))
              (pfn * 4096)
              s.trace
              t.trace)
        ⊎ (r ≡ 1))
unfolding kick_hard_offline kick_soft_offline
kick_offline-IsTold kernel s pfn h = (
  record { at = (kick-IsTold kernel s _ _ pfn (strtoul-print_hex pfn (omega arith))).at },
  record { at = (kick-IsTold kernel s _ _ (pfn * 4096) (strtoul-print_hex_page pfn h)).at },
)
