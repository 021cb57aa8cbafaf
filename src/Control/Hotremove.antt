-- ===== src/Control/Hotremove.antt =====
-- lib/pfn.h keeps one filter, and -L hotremove adds one each time.
use mm_regression.Base.{ℕ, ◌≡◌, ◌≢◌, refl, [], Option-cases, inl, inr}
use mm_regression.Base.Text.{codes}
use mm_regression.Opc.{OpControl, opc_get_value}
use mm_regression.PageFlags.Filter.{parse_bits_mask_full}
use mm_regression.Memblock.{Pageflags}
use mm_regression.Machine.{Kernel, State, exit}
use mm_regression.Control.{do_hotremove}

-- Once there is a filter, the next -L hotremove ends the process at once, whatever its arguments
-- are: no policy is set, no block is searched and no call is made.
pub do_hotremove-exit :
    (kernel : Kernel) (rounds : ℕ) (words : Pageflags) (opc : OpControl) (s : State)
    → s.filters ≢ []
    → do_hotremove kernel rounds words opc s ≡ (exit, s)
unfolding do_hotremove
do_hotremove-exit kernel rounds words opc s h =
    elim (Option-cases (opc_get_value opc (codes "pageflags"))) [
      | inl missing ↦ rw (missing, do_hotremove) refl
      | inr (text, given) ↦
          rw (given, do_hotremove) (rw (parse_bits_mask_full s.filters text h) refl)
    ]
