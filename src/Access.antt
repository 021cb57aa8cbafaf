-- ===== src/Access.antt =====
-- lib/include.h: reading and writing the chunks, in either direction.
pub mod Pages
pub mod Tests
use mm_regression.Base.{
  ℕ, zero, suc, ◌+◌, ◌-◌, ◌*◌, ◌/◌, ◌%◌, ◌^◌, List, [], ◌∷◌, Option, none, some, Bool, true, false,
  ◌==◌, leb, ◌&&◌, ◌||◌, if◌then◌else◌,
}
use mm_regression.Base.Text.{CString, codes, str_eq}
use mm_regression.Abi.{ps}
use mm_regression.Backend
use mm_regression.Opc.{OpControl, opc_defined, opc_get_value}
use mm_regression.Machine.{
  Call, Kernel, MemChunk, State, exit, running, M, pure, stop, ◌>>=◌, ◌>>◌, done, gets, emit,
  chunk_at, times,
}

up : (left i : ℕ) → List ℕ
up zero i = []
up (suc left) i = i ∷ up left (i + ps)

down : (left i : ℕ) → List ℕ
down zero i = []
down (suc left) i = i ∷ down left (i - ps)

-- The offsets of `for (i = 0; i < size; i += PS)`.
pub forward : ℕ → List ℕ
unfolding up
forward size = up ((size + ps - 1) / ps) 0

-- The offsets of `for (i = size - PS; i >= 0; i -= PS)`, `i` of type `int`.
pub backward : ℕ → List ℕ
unfolding down
backward size = down (size / ps) (size - ps)

-- The test of `do_access` on its `type`. (It asks for a text that equals all three.)
pub rejects_type : Option CString → Bool
rejects_type none = false
rejects_type (some type) =
    str_eq type (codes "read") && (str_eq type (codes "write") && str_eq type (codes "syswrite"))

module _ (kernel : Kernel) where
  emit_at : (ℕ → Call) → List ℕ → M (Unit {0})
  emit_at f [] = done
  emit_at f (i ∷ is) = do emit kernel (f i); emit_at f is

  pub read_memory : (p size : ℕ) → (reverse : Bool) → M (Unit {0})
  unfolding emit_at
  read_memory p size reverse =
      emit_at (λ i. Call.load (p + i)) (if reverse then backward size else forward size)

  pub write_memory : (p size : ℕ) → (reverse : Bool) → M (Unit {0})
  unfolding emit_at
  write_memory p size reverse =
      if reverse
      then emit_at (λ i. Call.store (p + i)) (backward size)
      else emit kernel (Call.memset p size)

  -- `for (i = size - PS; i >= 0; i -= PS) pwrite(...)`, `i` of type `unsigned long`.
  -- `rounds` are the rounds that are looked at.
  pub syswrite_down : (rounds : ℕ) → MemChunk → (i : ℕ) → M (Unit {0})
  syswrite_down zero mc i = stop running
  syswrite_down (suc rounds) mc i =
      if leb 0 i
      then (do
        fd ← gets (λ s. s.fd)
        emit kernel (Call.pwrite fd ps ((mc.offset + i) % 2 ^ 64))
        syswrite_down rounds mc ((i + 2 ^ 64 - ps) % 2 ^ 64))
      else done

  pub check_memory : MemChunk → M (Unit {0})
  check_memory mc =
      if mc.mem_type == Backend.ksm
      then emit kernel (
          Call.system
            (codes "/usr/local/bin/page-types -p %d -Nrl -a 0x700000000+0x1000000 | head"))
      else done

  module _ (rounds : ℕ) where
    syswrite : MemChunk → (reverse : Bool) → M (Unit {0})
    unfolding syswrite_down emit_at
    syswrite mc reverse =
        if reverse then syswrite_down rounds mc ((mc.chunk_size + 2 ^ 64 - ps) % 2 ^ 64) else (do
          fd ← gets (λ s. s.fd)
          emit_at (λ i. Call.pwrite fd ps (mc.offset + i)) (forward mc.chunk_size))

    -- The access that a memory type gets where no type is given.
    access_default : MemChunk → (reverse : Bool) → M (Unit {0})
    access_default mc reverse =
        if mc.mem_type == Backend.zero_page || mc.mem_type == Backend.huge_zero
        then read_memory mc.p mc.chunk_size reverse
        else if mc.mem_type == Backend.devmem
        then (do emit kernel (Call.memset mc.p ps); emit kernel (Call.memset (mc.p + 2 * ps) ps))
        else write_memory mc.p mc.chunk_size reverse

    pub access_memory : MemChunk → Option CString → (reverse : Bool) → M (Unit {0})
    unfolding access_default syswrite
    access_memory mc none reverse = access_default mc reverse
    access_memory mc (some type) reverse =
        if str_eq type (codes "read")
        then read_memory mc.p mc.chunk_size reverse
        else if str_eq type (codes "write")
        then write_memory mc.p mc.chunk_size reverse
        else if str_eq type (codes "syswrite")
        then syswrite mc reverse
        else done

    access_chunk : Option CString → (check reverse : Bool) → (j i : ℕ) → M (Unit {0})
    access_chunk type check reverse j i = do
      n ← gets (λ s. s.nr_chunk)
      mc ← chunk_at (i + j * n)
      access_memory mc type reverse
      if check then check_memory mc else done

    pub do_access : OpControl → M (Unit {0})
    unfolding access_chunk
    do_access opc =
        let type = opc_get_value opc (codes "type") in
        let check = opc_defined opc (codes "check") in
        let reverse = opc_defined opc (codes "reverse") in
        if rejects_type type then stop exit else (do
          types ← gets (λ s. s.nr_mem_types)
          times types 0
              λ j. do n ← gets (λ s. s.nr_chunk); times n 0 (access_chunk type check reverse j))
