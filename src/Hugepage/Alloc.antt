-- ===== src/Hugepage/Alloc.antt =====
-- The shared memory segments that a program was given and has not asked to remove.
use mm_regression.Base.{
  ℕ, ◌≡◌, ◌≢◌, refl, arith, List, [], ◌∷◌, Bool, true, false, ◌==◌, inl, inr, Bool-cases, bit_or,
  if◌then◌else◌,
}
use mm_regression.Base.Int.{ℤ, pos, negsuc, is_neg, is_zero, is_minus_one}
use mm_regression.Abi.{shm_flags, shm_hugetlb}
use mm_regression.Machine.{Call, Kernel, as_word, ◌>>=◌}
use mm_regression.Machine.Post.{Post, Post-bind, Post-if, Post-any}
use mm_regression.Hugepage.{
  alloc_anonymous_hugepage, alloc_filebacked_hugepage, H, HugeState, alloc_shm_hugepage,
  unless_null, alloc_hugepage, free_shm_hugepage, exit_on_failure, free_hugepage, call, emit,
}

int_eq : ℤ → ℤ → Bool
int_eq (pos m) (pos n) = m == n
int_eq (pos m) (negsuc n) = false
int_eq (negsuc m) (pos n) = false
int_eq (negsuc m) (negsuc n) = m == n

int_eq_refl : (x : ℤ) → int_eq x x ≡ true
unfolding int_eq
int_eq_refl (pos n) = ground arith
int_eq_refl (negsuc n) = ground arith

remove : ℤ → List ℤ → List ℤ
unfolding int_eq
remove id [] = []
remove id (x ∷ ids) = let rest = remove id ids in if int_eq x id then ids else x ∷ rest

-- What the calls of `shmget` made so far have returned, less one for each removal asked for since,
-- the latest first.
pub segments : Kernel → List Call → List ℤ
unfolding remove
segments kernel [] = []
segments kernel (Call.shmget key size flags ∷ t) =
    let rest = segments kernel t in
    let id = kernel t (Call.shmget key size flags) in if is_neg id then rest else id ∷ rest
segments kernel (Call.shmctl_rmid id ∷ t) = remove id (segments kernel t)
segments kernel (c ∷ t) = segments kernel t

-- A program that gets a huge page of shared memory and frees it has asked for the removal of each
-- segment that it was given on the way, once, also where another call fails or the process ends,
-- under a kernel that attaches no segment at address 0. (Whether the kernel grants a removal is not
-- looked at.)
pub free_hugepage-alloc_hugepage :
    (kernel : Kernel) (s : HugeState) (size : ℕ) (private : Bool)
    → ((t : List Call) (id : ℤ) → as_word (kernel t (Call.shmat id 0)) ≢ 0)
    → segments kernel
        ((alloc_hugepage kernel size 2 private >>= λ addr. free_hugepage kernel addr 2 size)
          s).1.trace
      ≡ segments kernel s.trace
unfolding alloc_hugepage alloc_shm_hugepage unless_null free_hugepage free_shm_hugepage
    exit_on_failure call emit segments remove
free_hugepage-alloc_hugepage kernel s size private nonzero =
    let get = Call.shmget (as_word s.shmkey) size (bit_or shm_hugetlb shm_flags) in
    let id = kernel s.trace get in
    let attached = kernel (get ∷ s.trace) (Call.shmat id 0) in
    let ne : (as_word attached == 0) ≡ false = let z = nonzero (get ∷ s.trace) id in ground arith in
    let same = int_eq_refl id in
    elim (Bool-cases (is_neg id)) [
      | inl failed ↦ rw failed (rw failed refl)
      | inr got ↦ elim (Bool-cases (is_minus_one attached)) [
        | inl refused ↦ rw (got, refused) (rw (got, same) refl)
        | inr there ↦
            elim (Bool-cases (
              is_zero (kernel (Call.shmat id 0 ∷ get ∷ s.trace) (Call.shmdt (as_word attached))))) [
                | inl ok ↦ rw (got, there, ne, ok) (rw (got, same) refl)
                | inr bad ↦ rw (got, there, ne, bad) (rw (got, same) refl)
              ]
      ]
    ]

module _ (kernel : Kernel) where
  unless_null-ne_zero : (s : HugeState) (addr : ℕ) → Post s (unless_null kernel addr) (λ a _. a ≢ 0)
  unfolding unless_null
  unless_null-ne_zero s addr = elim (Bool-cases (addr == 0)) [
    | inl null ↦ record { at = rw null tt }
    | inr there ↦ record { at = rw there (λ e. ground arith) }
  ]

  checked-ne_zero :
      (s : HugeState) (alloc : H ℕ)
      → Post s (alloc >>= λ addr. unless_null kernel addr) (λ a _. a ≢ 0)
  checked-ne_zero s alloc =
      Post-bind (λ _ _. Unit {0}) (Post-any s alloc) λ addr t h. unless_null-ne_zero t addr

-- Where `alloc_hugepage` returns, the address is not NULL, for every kind of huge page, whatever the
-- kernel answers.
pub alloc_hugepage-ne_zero :
    (kernel : Kernel) (s : HugeState) (size hptype : ℕ) (private : Bool)
    → Post s (alloc_hugepage kernel size hptype private) (λ addr _. addr ≢ 0)
unfolding alloc_hugepage
alloc_hugepage-ne_zero kernel s size hptype private = record {
  at =
      (Post-if (hptype == 2) (checked-ne_zero kernel s (alloc_shm_hugepage kernel size)) (
        Post-if (hptype == 1)
          (checked-ne_zero kernel s (alloc_anonymous_hugepage kernel size private 0))
          (checked-ne_zero kernel s (alloc_filebacked_hugepage kernel size private)))).at;
}
