-- ===== src/PageInfo/Tests.antt =====
-- Runs on what procfs tells of a page.
use mm_regression.Base.{ℕ, ◌+◌, ◌*◌, ◌/◌, ◌^◌, ◌≡◌, ◌⊎◌, refl, arith, List, [], ◌∷◌, map, replicate}
use mm_regression.Base.Int.{pos}
use mm_regression.Base.Text.{codes}
use mm_regression.Machine.{Call, Kernel, ok, call}
use mm_regression.Machine.Samples.{fresh}
use mm_regression.Machine.Post.{Post}
use mm_regression.PageFlags.{pagemap_pfn}
use mm_regression.PageFlags.Frame.{frame_of}
use mm_regression.PageInfo.{get_pfn, kick_hard_offline, kick_soft_offline, print_hex}
use mm_regression.PageInfo.Laws.{IsTold, get_pfn-frame_of, kick_offline-IsTold}

-- Pages of 4096 bytes; every word that is asked for is read.
abbrev reading : Kernel
reading t Call.getpagesize = pos 4096
reading t (Call.pread_pagemap index count) = pos (count * 8)
reading t c = pos 3

-- Every page is present in the frame 300.
abbrev present : (index count : ℕ) → List ℕ
present index count = replicate count (2 ^ 63 + 300)

get_pfn-frame_of_example :
    Post fresh
      (get_pfn reading present 0x700000000000 0 2)
      (λ pfns _. pfns ≡ map frame_of (present (0x700000000000 / 4096) 2))
get_pfn-frame_of_example = get_pfn-frame_of reading present fresh 0x700000000000 0 2 (λ index. refl)

two_frames : (get_pfn reading present 0x700000000000 0 2 fresh).0 ≡ ok (300 ∷ 300 ∷ [])
unfolding get_pfn call pagemap_pfn
two_frames = refl

printed : print_hex 300 (codes "000\n") ≡ codes "0x12c000\n"
unfolding print_hex
printed = refl

kick_offline-IsTold_example :
    Post fresh (kick_hard_offline reading 300) (λ r t.
      ((r ≡ 0)
        × IsTold (Call.open_wo (codes "/sys/kernel/debug/hwpoison/corrupt-pfn")) 300 [] t.trace)
      ⊎ (r ≡ 1))
    × Post fresh (kick_soft_offline reading 300) (λ r t.
      ((r ≡ 0)
        × IsTold
            (Call.open_wo (codes "/sys/devices/system/memory/soft_offline_page"))
            (300 * 4096)
            []
            t.trace)
      ⊎ (r ≡ 1))
kick_offline-IsTold_example = kick_offline-IsTold reading fresh 300 (omega arith)
