-- ===== src/Libc.antt =====
-- What lib/include.h uses of the C library's string functions.
pub mod Tokens
pub mod Scan
pub mod Numbers
use mm_regression.Base.{
  ℕ, zero, suc, ◌+◌, ◌-◌, ◌*◌, ◌/◌, ◌%◌, ◌^◌, List, [], ◌∷◌, Option, none, some, Bool, true, false,
  ltb, leb, ◌==◌, ◌&&◌, ◌||◌, if◌then◌else◌,
}
use mm_regression.Base.Text.{CString}

-- The tokens that repeated calls of `strtok(s, delimiter)` return, for one delimiter.
push_token : CString → List CString → List CString
push_token [] ts = ts
push_token (c ∷ w) ts = (c ∷ w) ∷ ts

-- The token that the text begins with, which is empty before a delimiter, and those after it.
split_at : ℕ → CString → CString × List CString
unfolding push_token
split_at d [] = ([], [])
split_at d (c ∷ s) =
    let (w, ts) = split_at d s in if c == d then ([], push_token w ts) else (c ∷ w, ts)

unfoldable pub strtok : ℕ → CString → List CString
unfolding split_at push_token
strtok d s = let (w, ts) = split_at d s in push_token w ts

abbrev pub is_space : ℕ → Bool
is_space c = c == 32 || (leb 9 c && leb c 13)

-- `%[^=]`: the text before the first `=`, and the rest from it on.
span_key : CString → CString × CString
span_key [] = ([], [])
span_key (c ∷ s) = let (k, r) = span_key s in if c == b'=' then ([], c ∷ s) else (c ∷ k, r)

skip_spaces : CString → CString
skip_spaces [] = []
skip_spaces (c ∷ s) = let r = skip_spaces s in if is_space c then r else c ∷ s

word : CString → CString
word [] = []
word (c ∷ s) = let r = word s in if is_space c then [] else c ∷ r

-- What follows the key: nothing, or `=` and the text that `%s` reads.
value_after : CString → CString
unfolding skip_spaces word
value_after [] = []
value_after (c ∷ r) = word (skip_spaces r)

-- `sscanf(s, "%[^=]=%s", key, value)` over buffers that hold empty texts. With no text before the
-- `=` nothing is read.
unfoldable pub scan_key_value : CString → CString × CString
unfolding span_key value_after
scan_key_value s =
    let (k, r) = span_key s in elim k [ [] ↦ ([], []) | c ∷ k' ↦ (c ∷ k', value_after r) ]

-- The value of a digit in bases up to 16; 16 is no digit.
abbrev pub digit : ℕ → ℕ
digit c =
    if leb b'0' c && leb c b'9'
    then c - b'0'
    else if leb b'a' c && leb c b'f'
    then c - b'a' + 10
    else if leb b'A' c && leb c b'F'
    then c - b'A' + 10
    else 16

-- The digits of a number in a base, up to the first character that is none.
pub number : (base acc : ℕ) → CString → ℕ
number base acc [] = acc
number base acc (c ∷ s) =
    let rest = number base (acc * base + digit c) s in if ltb (digit c) base then rest else acc

-- After the sign: `0x` begins base 16 and `0` base 8. (A `0x` with no digit behind it reads as 0.)
unsigned : CString → ℕ
unfolding number
unsigned [] = 0
unsigned (c ∷ []) = number 10 0 (c ∷ [])
unsigned (c ∷ x ∷ s) =
    if c == b'0'
    then (if x == b'x' || x == b'X' then number 16 0 s else number 8 0 (x ∷ s))
    else number 10 0 (c ∷ x ∷ s)

-- A number beyond ULONG_MAX reads as ULONG_MAX.
abbrev pub saturate : ℕ → ℕ
saturate n = if ltb n (2 ^ 64) then n else 2 ^ 64 - 1

signed : CString → ℕ
unfolding unsigned
signed [] = 0
signed (c ∷ s) =
    if c == b'-'
    then (2 ^ 64 - saturate (unsigned s)) % 2 ^ 64
    else if c == b'+'
    then saturate (unsigned s)
    else saturate (unsigned (c ∷ s))

-- `strtoul(s, NULL, 0)`
unfoldable pub strtoul : CString → ℕ
unfolding signed skip_spaces
strtoul s = signed (skip_spaces s)

-- `strtoul(s, NULL, 10)`
decimal_word : CString → ℕ
unfolding number
decimal_word [] = 0
decimal_word (c ∷ s) =
    if c == b'-'
    then (2 ^ 64 - saturate (number 10 0 s)) % 2 ^ 64
    else if c == b'+'
    then saturate (number 10 0 s)
    else saturate (number 10 0 (c ∷ s))

unfoldable pub strtoul_decimal : CString → ℕ
unfolding decimal_word skip_spaces
strtoul_decimal s = decimal_word (skip_spaces s)

-- The digits of a number below `10 ^ fuel`, before `rest`.
dec_digits : (fuel n : ℕ) → (rest : CString) → CString
dec_digits zero n rest = rest
dec_digits (suc fuel) n rest =
    let more = dec_digits fuel (n / 10) ((b'0' + n % 10) ∷ rest) in
    if ltb n 10 then (b'0' + n) ∷ rest else more

-- `%d` of a number that is not negative, before `rest`; 20 digits are enough for 64 bits.
unfoldable pub print_dec : ℕ → (rest : CString) → CString
unfolding dec_digits
print_dec n rest = dec_digits 20 n rest

-- `strtol(s, NULL, 0)` and `strtoll(s, NULL, 0)`, as 64-bit words. What does not fit reads as the
-- nearest number that does.
strtol_signed : CString → ℕ
unfolding unsigned
strtol_signed [] = 0
strtol_signed (c ∷ s) =
    if c == b'-'
    then (if ltb (2 ^ 63) (unsigned s) then 2 ^ 63 else (2 ^ 64 - unsigned s) % 2 ^ 64)
    else let n = if c == b'+' then unsigned s else unsigned (c ∷ s) in
      if ltb n (2 ^ 63) then n else 2 ^ 63 - 1

unfoldable pub strtol : CString → ℕ
unfolding strtol_signed skip_spaces
strtol s = strtol_signed (skip_spaces s)

-- `atol(s)`, as a 64-bit word: base 10, whatever the text begins with.
decimal_signed : CString → ℕ
unfolding number
decimal_signed [] = 0
decimal_signed (c ∷ s) =
    if c == b'-'
    then (let n = number 10 0 s in if ltb (2 ^ 63) n then 2 ^ 63 else (2 ^ 64 - n) % 2 ^ 64)
    else let n = if c == b'+' then number 10 0 s else number 10 0 (c ∷ s) in
      if ltb n (2 ^ 63) then n else 2 ^ 63 - 1

unfoldable pub atol : CString → ℕ
unfolding decimal_signed skip_spaces
atol s = decimal_signed (skip_spaces s)

-- `!strncmp(s, t, n)` for an `s` of at least `n` bytes
unfoldable pub strncmp_eq : (n : ℕ) → CString → CString → Bool
strncmp_eq zero s t = true
strncmp_eq (suc n) [] t = false
strncmp_eq (suc n) (c ∷ s) [] = false
strncmp_eq (suc n) (c ∷ s) (d ∷ t) = c == d && strncmp_eq n s t

-- The text after the first `d`: `strchr(s, d) + 1`
unfoldable pub after_char : ℕ → CString → Option CString
after_char d [] = none
after_char d (c ∷ s) = let rest = after_char d s in if c == d then some s else rest
