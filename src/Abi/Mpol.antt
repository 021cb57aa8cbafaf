-- ===== src/Abi/Mpol.antt =====
-- The MPOL_ modes and flags of mbind(2).
use mm_regression.Base.{ℕ}

abbrev pub default : ℕ
default = 0

abbrev pub preferred : ℕ
preferred = 1

abbrev pub bind : ℕ
bind = 2

-- MPOL_MF_STRICT, MPOL_MF_MOVE, MPOL_MF_MOVE_ALL
abbrev pub mf_strict : ℕ
mf_strict = 1

abbrev pub mf_move : ℕ
mf_move = 2

abbrev pub mf_move_all : ℕ
mf_move_all = 4
