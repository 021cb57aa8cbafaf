-- ===== src/Abi/Madv.antt =====
-- The MADV_ advices of madvise(2).
use mm_regression.Base.{ℕ}

abbrev pub normal : ℕ
normal = 0

abbrev pub random : ℕ
random = 1

abbrev pub sequential : ℕ
sequential = 2

abbrev pub willneed : ℕ
willneed = 3

abbrev pub dontneed : ℕ
dontneed = 4

abbrev pub free : ℕ
free = 8

abbrev pub remove : ℕ
remove = 9

abbrev pub dontfork : ℕ
dontfork = 10

abbrev pub dofork : ℕ
dofork = 11

abbrev pub mergeable : ℕ
mergeable = 12

abbrev pub unmergeable : ℕ
unmergeable = 13

abbrev pub hugepage : ℕ
hugepage = 14

abbrev pub nohugepage : ℕ
nohugepage = 15

abbrev pub dontdump : ℕ
dontdump = 16

abbrev pub dodump : ℕ
dodump = 17

abbrev pub hwpoison : ℕ
hwpoison = 100

abbrev pub soft_offline : ℕ
soft_offline = 101
