-- ===== src/Chunk/Quiet.antt =====
-- To open a file asks the kernel and no more.
use mm_regression.Base.Int.{is_neg}
use mm_regression.Base.Text.{CString}
use mm_regression.Machine.{Call, Kernel, exit, call}
use mm_regression.Machine.Touched.{
  IsQuiet, IsQuiet-stop, IsQuiet-pure, IsQuiet-call, IsQuiet-if, IsQuiet-bind,
}
use mm_regression.Chunk.{checked_open}

pub checked_open-IsQuiet :
    (kernel : Kernel) (path : CString) → IsQuiet kernel (checked_open kernel path)
unfolding checked_open
checked_open-IsQuiet kernel path =
    IsQuiet-bind (call kernel (Call.open_rw path)) _ (IsQuiet-call _ tt)
      (λ r. IsQuiet-if (is_neg r) (IsQuiet-stop exit (λ e. cc)) (IsQuiet-pure r))
