-- ===== src/Programs/Ndctl/Ranges.antt =====
-- What a request of ndctl_ioctl says of a range, and the range that is asked for.
use mm_regression.Base.{
  arith, ℕ, zero, suc, ◌+◌, ◌*◌, ◌/◌, ◌^◌, ◌<◌, ◌≡◌, ◌⊎◌, inl, inr, refl, List, [], ◌∷◌, ◌++◌,
  Option, none, some, drop, replicate,
}
use mm_regression.Base.Int.{ℤ, pos}
use mm_regression.Base.Text.{CString, codes}
use native.Mathlib.Nat.{pow-suc}
use mm_regression.Libc.{strtoul}
use mm_regression.Libc.Numbers.{strtoul-lt}
use mm_regression.Machine.{ok}
use mm_regression.Programs.Ndctl.{
  ArsStatus, Request, Step, le_bytes, payload_of, new_package, main, inject, inject_clear,
  run_command, step, finish, clear_range, call_package, number_or,
}

-- The number in the first `n` bytes.
pub read_le : (n : ℕ) → List ℕ → ℕ
read_le zero bytes = 0
read_le (suc n) [] = 0
read_le (suc n) (b ∷ bytes) = b + 256 * read_le n bytes

pub read_le-le_bytes :
    (n x : ℕ) (rest : List ℕ) → x < 256 ^ n → read_le n (le_bytes n x ++ rest) ≡ x
unfolding read_le le_bytes
read_le-le_bytes zero x rest h = omega arith
read_le-le_bytes (suc n) x rest h =
    let rest_is = read_le-le_bytes n (x / 256) rest (omega (arith, pow-suc 256 n)) in
    omega (arith, rest_is)

pub drop-le_bytes : (n x : ℕ) (rest : List ℕ) → drop n (le_bytes n x ++ rest) ≡ rest
unfolding le_bytes
drop-le_bytes zero x rest = refl
drop-le_bytes (suc n) x rest = drop-le_bytes n (x / 256) rest

-- A payload that begins with a range.
payload_range : List ℕ → Option (ℕ × ℕ)
unfolding read_le
payload_range bytes = some (read_le 8 bytes, read_le 8 (drop 8 bytes))

-- The range that a request names, in its fields or in the bytes of its payload.
pub range_of : Request → Option (ℕ × ℕ)
unfolding payload_range
range_of (Request.cmd_ars_start s) = some (s.address, s.length)
range_of (Request.cmd_ars_status n) = none
range_of (Request.cmd_clear_error c) = some (c.address, c.length)
range_of (Request.cmd_call p) = payload_range p.nd_payload
range_of (Request.intel_inject_error flags field) = none

payload-range :
    (x y : ℕ) (rest : List ℕ)
    → x < 2 ^ 64
    → y < 2 ^ 64
    → ◌≡◌ {A = Option (ℕ × ℕ)}
        (payload_range (le_bytes 8 x ++ (le_bytes 8 y ++ rest)))
        (some (x, y))
unfolding payload_range
payload-range x y rest h k =
    rw
      (
        drop-le_bytes 8 x (le_bytes 8 y ++ rest),
        read_le-le_bytes 8 x (le_bytes 8 y ++ rest) h,
        read_le-le_bytes 8 y rest k,
      )
      refl

-- The request that the program makes, between the opening of the devices and the messages of the
-- kernel, and the range in it.
pub record IsAsked (range : ℕ × ℕ) (fd : ℤ) (steps before : List Step) : Type 0 where
  pub request : Request
  pub made :
      steps
      ≡ Step.system (codes "dmesg | tail -n 30")
        ∷ Step.ioctl fd request
        ∷ Step.open_rw (codes "/dev/nmem0")
        ∷ Step.open_rw (codes "/dev/ndctl0")
        ∷ before
  pub names : range_of request ≡ some range

module _ (answer : List Step → Step → ℤ) (stored : List Step → ArsStatus) where
  -- A range on the command line goes into the request as it is, when the command is 4, 7 or 8: the
  -- program ends with success after one request, which names the range, for the device ndctl0.
  pub main-IsAsked :
      (cmd start size : CString) (t : List Step)
      → (strtoul cmd ≡ 4) ⊎ ((strtoul cmd ≡ 7) ⊎ (strtoul cmd ≡ 8))
      → let out = main answer stored (cmd ∷ start ∷ size ∷ []) t in
        (out.0 ≡ ok (pos 0))
        × IsAsked
            (strtoul start, strtoul size)
            (answer t (Step.open_rw (codes "/dev/ndctl0")))
            out.1
            t
  unfolding main run_command step finish clear_range call_package new_package inject inject_clear
      number_or payload_of range_of
  main-IsAsked cmd start size t (inl four) =
      rw four (refl, record { request = _; made = refl; names = refl })
  main-IsAsked cmd start size t (inr (inl seven)) = rw seven (
    refl,
    record {
      request = _;
      made = refl;
      names =
          payload-range (strtoul start) (strtoul size) (1 ∷ replicate 15 0) (strtoul-lt start)
            (strtoul-lt size);
    },
  )
  main-IsAsked cmd start size t (inr (inr eight)) = rw eight (
    refl,
    record {
      request = _;
      made = refl;
      names =
          payload-range (strtoul start) (strtoul size) (replicate 16 0) (strtoul-lt start)
            (strtoul-lt size);
    },
  )
