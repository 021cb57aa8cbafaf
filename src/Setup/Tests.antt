-- ===== src/Setup/Tests.antt =====
-- Runs of the options and of `setup`.
use mm_regression.Base.{◌≡◌, refl, ◌||◌, ◌==◌, inl, length, arith, some}
use mm_regression.Base.{[]}
use mm_regression.Base.Text.{CString, codes}
use mm_regression.Base.Bits.{test_bit}
use mm_regression.Backend.{for_each_backend}
use mm_regression.Chunk.{do_mmap, nr_chunk_of}
use mm_regression.Chunk.Complete.{IsComplete}
use mm_regression.Chunk.Tests.{obliging-IsObliging}
use mm_regression.Machine.{State, ok, ◌>>◌}
use mm_regression.Machine.Samples.{obliging, fresh}
use mm_regression.Machine.Total.{Total}
use mm_regression.Setup.{setup, read_option}
use mm_regression.Setup.Files.{HasFiles, HasPaths}
use mm_regression.Setup.Names.{read_option-adds}
use mm_regression.Setup.Ready.{IsReady, setup-do_mmap-IsComplete}

obliging-HasFiles : HasFiles obliging
obliging-HasFiles = record {
  makes = λ t dpath. inl refl;
  maps = λ t size prot flags fd offset. refl;
  opens = λ t path. refl;
  creates = λ t path. refl;
}

-- -B pagecache -B hugetlb_file
abbrev with_files : State
with_files = record fresh { backend_bitmap = 33; chunkset = [] }

named_testfile : (base : CString) → with_files.filebase ≡ some base → length base ≡ 8
named_testfile base e = let same : codes "testfile" ≡ base = ground arith in rw (← same) refl

with_files-HasPaths : HasPaths with_files
with_files-HasPaths = record {
  dir = omega arith;
  regular = λ base e. omega (arith, named_testfile base e);
  huge = λ base e. omega (arith, named_testfile base e);
  named = λ e. (codes "testfile", refl);
}

setup-do_mmap-IsComplete_example : Total with_files (setup obliging >> do_mmap obliging) (λ _ t.
    (u : State) × IsReady with_files u × IsComplete u.nr_p u.nr_chunk (for_each_backend 33) 0 u t)
unfolding for_each_backend nr_chunk_of
setup-do_mmap-IsComplete_example =
    setup-do_mmap-IsComplete obliging with_files obliging-IsObliging obliging-HasFiles
      with_files-HasPaths (inl refl) (omega arith)

read_option-adds_example :
    ((read_option obliging b'B' (codes "ksm") [] fresh).0 ≡ ok [])
    × (test_bit (read_option obliging b'B' (codes "ksm") [] fresh).1.backend_bitmap 6
        ≡ (test_bit 6 6 || 6 == 6))
read_option-adds_example = read_option-adds obliging fresh [] 6 (codes "ksm") 6 6 refl
