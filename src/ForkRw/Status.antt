-- ===== src/ForkRw/Status.antt =====
-- What the parent learns of the child.
use mm_regression.Base.{
  ℕ, ◌+◌, ◌*◌, ◌%◌, ◌-◌, ◌≡◌, ◌⊎◌, refl, ◌∙◌, ap, arith, List, ◌∷◌, Option, none, some, ◌==◌, inl,
  inr, Bool-cases, if◌then◌else◌,
}
use mathlib.Core.Path.{subst}
use mm_regression.Base.Int.{ℤ, pos, negsuc, is_zero, is_minus_one}
use mm_regression.Base.Text.{CString, codes, str_eq}
use mm_regression.Abi.{ps, addr_input, protflag, map_shared}
use mm_regression.Machine.{Call, Kernel, Result, ok, exit, fault, running, as_word, pure, ◌>>=◌}
use mm_regression.Machine.Post.{Post, Returned, Post-bind, Post-if, Post-any}
use mm_regression.ForkRw.{
  Shared, failure, call, emit, touch, attach, code_of, parent, child_sysrw, fill_attached,
  child_mmap_again, child,
}

-- The status that `wait` stores for a process that ended with `return c`.
abbrev pub exit_status : ℤ → ℕ
exit_status (pos n) = n % 256 * 256
exit_status (negsuc n) = (255 - n % 256) * 256

-- A process that returns 0 or -1 from `main`.
abbrev pub Ended : ℤ → List Call → Type 0
Ended r t = (r ≡ pos 0) ⊎ (r ≡ failure)

module _ (kernel : Kernel) where
  child_sysrw-Ended :
      (t : List Call) (hps : ℕ) (m : Shared) → Post t (child_sysrw kernel hps m) Ended
  unfolding child_sysrw call emit
  child_sysrw-Ended t hps m =
      let poisoned = kernel t (Call.pread m.fd ps 0) in
      let punched = kernel (Call.pread m.fd ps 0 ∷ t) (Call.fallocate m.fd 3 0 hps) in
      let again =
        kernel (Call.fallocate m.fd 3 0 hps ∷ Call.pread m.fd ps 0 ∷ t) (Call.pread m.fd ps 0) in
      elim (Bool-cases (is_minus_one poisoned)) [
        | inl failed ↦ elim (Bool-cases (is_minus_one punched)) [
          | inl refused ↦ record { at = rw (failed, refused) (inr refl) }
          | inr hole ↦ elim (Bool-cases (is_minus_one again)) [
            | inl still ↦ record { at = rw (failed, hole, still) (inr refl) }
            | inr readable ↦ record { at = rw (failed, hole, readable) (inl refl) }
          ]
        ]
        | inr passed ↦ record { at = rw passed (inr refl) }
      ]

  touched-Ended :
      (t : List Call) (hps addr : ℕ) → Post t (touch kernel addr hps >>= λ _. pure (pos 0)) Ended
  unfolding touch call
  touched-Ended t hps addr = elim (Bool-cases (is_minus_one (kernel t (Call.memset addr hps)))) [
    | inl killed ↦ record { at = rw killed tt }
    | inr written ↦ record { at = rw written (inl refl) }
  ]

  fill_attached-Ended :
      (t : List Call) (hps : ℕ) (attached : Option (ℕ × ℤ))
      → Post t (fill_attached kernel hps attached) Ended
  unfolding fill_attached
  fill_attached-Ended t hps none = record { at = inr refl }
  fill_attached-Ended t hps (some (addr, shmid)) = touched-Ended t hps addr

  child_mmap_again-Ended :
      (t : List Call) (hps : ℕ) (kind : CString) (m : Shared)
      → Post t (child_mmap_again kernel hps kind m) Ended
  unfolding child_mmap_again call emit
  child_mmap_again-Ended t hps kind m = elim (Bool-cases (str_eq kind (codes "shmem"))) [
    | inl shmem ↦ record {
      at =
          rw shmem
            (Post-bind (λ _ _. Unit {0}) (Post-any t (attach kernel hps m.shmkey))
              λ a u _. fill_attached-Ended u hps a).at;
    }
    | inr file ↦
        let fd = kernel t (Call.open_rw kind) in
        let mapping = Call.mmap (addr_input + hps) hps protflag map_shared fd 0 in
        let addr = kernel (Call.open_rw kind ∷ t) mapping in
        elim (Bool-cases (is_minus_one fd)) [
          | inl absent ↦ record { at = rw (file, absent) (inr refl) }
          | inr opened ↦ elim (Bool-cases (as_word addr == addr_input + hps)) [
            | inl there ↦ record {
              at =
                  rw (file, opened, there)
                    (touched-Ended (mapping ∷ Call.open_rw kind ∷ t) hps (as_word addr)).at;
            }
            | inr elsewhere ↦ record { at = rw (file, opened, elsewhere) (inr refl) }
          ]
        ]
  ]

  -- A child that no signal kills returns 0 or -1, whichever of its calls fail.
  child-Ended :
      (t : List Call) (hps : ℕ) (kind mode : CString) (m : Shared)
      → Post t (child kernel hps kind mode m) Ended
  unfolding child emit
  child-Ended t hps kind mode m = record {
    at =
        (Post-if {s = Call.usleep 1000000 ∷ t} (str_eq mode (codes "sysrw"))
          (child_sysrw-Ended _ hps m)
          (Post-if (str_eq mode (codes "mmap_again")) (child_mmap_again-Ended _ hps kind m)
            (touched-Ended _ hps m.addr))).at;
  }

returned : (r : Result ℤ) (t : List Call) (c : ℤ) → Returned Ended r t → r ≡ ok c → Ended c t
returned (ok d) t c h e = let same : d ≡ c = ground arith in subst (λ x. Ended x t) same h
returned exit t c h e = cc
returned fault t c h e = cc
returned running t c h e = cc

tells :
    (kernel : Kernel) (hps : ℕ) (m : Shared) (u : List Call) (c : ℤ)
    → (c ≡ pos 0) ⊎ (c ≡ failure)
    → ((v : List Call) → kernel v Call.wait ≡ pos (exit_status c))
    → (parent kernel hps m u).0 ≡ ok (if is_zero c then pos 0 else pos 2)
unfolding parent code_of call emit
tells kernel hps m u c (inl zero) told =
    let told_zero : (v : List Call) → kernel v Call.wait ≡ pos 0 =
      λ v. told v ∙ ap (λ r. pos (exit_status r)) zero in
    rw (told_zero, zero) refl
tells kernel hps m u c (inr failed) told =
    let told_failure : (v : List Call) → kernel v Call.wait ≡ pos (255 * 256) =
      λ v. told v ∙ ap (λ r. pos (exit_status r)) failed in
    rw (told_failure, failed) refl

-- Where the child returns `c`, and `wait` tells the parent the status of the child, the parent
-- returns 0 if `c` is 0, and else 2; and `c` is 0 or -1.
pub parent-child :
    (kernel : Kernel) (hps : ℕ) (kind mode : CString) (m : Shared) (t u : List Call) (c : ℤ)
    → (child kernel hps kind mode m t).0 ≡ ok c
    → ((v : List Call) → kernel v Call.wait ≡ pos (exit_status c))
    → ((parent kernel hps m u).0 ≡ ok (if is_zero c then pos 0 else pos 2))
      × ((c ≡ pos 0) ⊎ (c ≡ failure))
parent-child kernel hps kind mode m t u c ran told =
    let ended = returned _ _ c (child-Ended kernel t hps kind mode m).at ran in
    (tells kernel hps m u c ended told, ended)
