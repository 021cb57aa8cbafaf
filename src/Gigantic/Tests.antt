-- ===== src/Gigantic/Tests.antt =====
-- Runs of the program for pages of 1 GB.
use mm_regression.Base.{◌^◌, ◌≡◌, refl, [], ◌∷◌, none, some, false}
use mm_regression.Base.Int.{pos}
use mm_regression.Base.Text.{codes, str_eq}
use mm_regression.Libc.{strtok, scan_key_value}
use mm_regression.Opc.{OpControl}
use mm_regression.Machine.{Call, Kernel}
use mm_regression.Gigantic.{GigaState, do_iterate_mapping}
use mm_regression.Gigantic.Parse.{read_operation}
use mm_regression.Gigantic.Areas.{areas, do_iterate_mapping-areas}

-- Memory is mapped where asked, and no signal arrives.
abbrev mapping : Kernel
mapping t (Call.mmap addr size prot flags fd offset) = pos addr
mapping t Call.flag = pos 1
mapping t (Call.create_rw path) = pos 3
mapping t c = pos 0

abbrev started : GigaState
started = record { size = 2 ^ 30; ghp = 0; ghfd = pos 0; testpipe = false; trace = [] }

abbrev iterate_file : OpControl
iterate_file = record {
  name = codes "iterate_mapping";
  wait_before = false;
  wait_after = false;
  tag = none;
  args = record { key = codes "type"; value = codes "file"; room = 64 } ∷ [];
}

do_iterate_mapping-areas_example :
    areas mapping (do_iterate_mapping mapping 3 iterate_file started).1.trace ≡ areas mapping []
do_iterate_mapping-areas_example = do_iterate_mapping-areas mapping 3 iterate_file started

iterate_file_read : read_operation (codes "iterate_mapping:type=file") ≡ some iterate_file
unfolding read_operation strtok scan_key_value str_eq
iterate_file_read = refl
