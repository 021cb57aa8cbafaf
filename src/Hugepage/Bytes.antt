-- ===== src/Hugepage/Bytes.antt =====
-- The bytes of one page: the pattern that is written, and the test for it.
use mm_regression.Base.{
  ℕ, zero, suc, ◌+◌, ◌*◌, ◌^◌, ◌≤◌, ◌<◌, ◌≡◌, ◌≢◌, ◌⊎◌, ◌↔◌, refl, ◌∙◌, arith, inl, inr, true, ◌==◌,
  Bool-cases,
}
use mm_regression.Hugepage.{Memory, store, byte_address, expected, write_bytes, read_bytes}

pub first_or_later : (j k : ℕ) → j ≤ k → (j ≡ k) ⊎ (j + 1 ≤ k)
first_or_later j k p = elim (Bool-cases (j == k)) [
  | inl same ↦ inl (ground arith)
  | inr other ↦ let ne : j ≢ k = λ e. ground arith in inr (omega (arith, ne))
]

module _ (hps addr : ℕ) where
  -- The page `l` holds the pattern.
  abbrev pub HoldsPattern : Memory → ℕ → Type 0
  HoldsPattern mem l = (k : ℕ) → k < hps → mem (addr + (l * hps + k)) ≡ expected l k

  pub address_lem :
      (i j : ℕ) → addr + (i * hps + j) < 2 ^ 64 → byte_address hps addr i j ≡ addr + (i * hps + j)
  address_lem i j h = ground arith

  store_same : (mem : Memory) (a v : ℕ) → store mem a v a ≡ v
  store_same mem a v = ground arith

  store_other : (mem : Memory) (a v b : ℕ) → b ≢ a → store mem a v b ≡ mem b
  store_other mem a v b h = ground arith

  pub write_bytes-outside :
      (i left j : ℕ) (mem : Memory) (b : ℕ)
      → addr + (i * hps + (j + left)) ≤ 2 ^ 64
      → (b < addr + (i * hps + j)) ⊎ (addr + (i * hps + (j + left)) ≤ b)
      → write_bytes hps addr i left j mem b ≡ mem b
  unfolding write_bytes
  write_bytes-outside i zero j mem b small h = refl
  write_bytes-outside i (suc left) j mem b small h =
      let here : byte_address hps addr i j ≡ addr + (i * hps + j) = address_lem i j (omega arith) in
      let v = expected i j in
      let a = byte_address hps addr i j in
      write_bytes-outside i left (j + 1) (store mem a v) b (omega arith)
        (elim h [ inl before ↦ inl (omega arith) | inr after ↦ inr (omega arith) ])
      ∙ store_other mem a v b
          (λ e. elim h [ inl before ↦ absurd (omega arith) | inr after ↦ absurd (omega arith) ])

  pub write_bytes-inside :
      (i left j k : ℕ) (mem : Memory)
      → addr + (i * hps + (j + left)) ≤ 2 ^ 64
      → j ≤ k
      → k < j + left
      → write_bytes hps addr i left j mem (addr + (i * hps + k)) ≡ expected i k
  unfolding write_bytes
  write_bytes-inside i zero j k mem small p q = absurd (omega arith)
  write_bytes-inside i (suc left) j k mem small p q =
      let here : byte_address hps addr i j ≡ addr + (i * hps + j) = address_lem i j (omega arith) in
      let v = expected i j in
      let a = byte_address hps addr i j in
      elim (Bool-cases (j == k)) [
        | inl same ↦
            let e : j ≡ k = ground arith in
            write_bytes-outside i left (j + 1) (store mem a v) (addr + (i * hps + k)) (omega arith)
              (inl (omega arith))
            ∙ rw (here, ← e) (store_same mem (addr + (i * hps + j)) v)
        | inr other ↦
            let ne : j ≢ k = λ e. ground arith in
            write_bytes-inside i left (j + 1) k (store mem a v) (omega arith) (omega (arith, ne))
              (omega arith)
      ]

  pub read_bytes_iff :
      (i left j : ℕ) (mem : Memory)
      → addr + (i * hps + (j + left)) ≤ 2 ^ 64
      → (read_bytes hps addr i left j mem ≡ true)
        ↔ ((k : ℕ) → j ≤ k → k < j + left → mem (addr + (i * hps + k)) ≡ expected i k)
  unfolding read_bytes
  read_bytes_iff i zero j mem small = (λ e k p q. absurd (omega arith), λ h. refl)
  read_bytes_iff i (suc left) j mem small =
      let here : byte_address hps addr i j ≡ addr + (i * hps + j) = address_lem i j (omega arith) in
      let (to, from) = read_bytes_iff i left (j + 1) mem (omega arith) in
      (
        λ e k p q. elim (first_or_later j k p) [
          | inl same ↦ rw (← same) (ground arith)
          | inr later ↦ to (ground arith) k later (omega arith)
        ],
        λ h.
            let first = h j (omega arith) (omega arith) in
            let rest = from (λ k p q. h k (omega arith) (omega arith)) in ground arith,
      )
