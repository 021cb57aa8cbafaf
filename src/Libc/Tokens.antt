-- ===== src/Libc/Tokens.antt =====
-- Tokens that are joined by a delimiter come back from `strtok`.
use mm_regression.Base.{ℕ, ◌≡◌, ◌≢◌, refl, sym, ◌∙◌, ap, List, [], ◌∷◌, ◌++◌, arith, All}
use mathlib.Core.List.{append-nil}
use mm_regression.Base.Text.{CString}
use mm_regression.Libc.{strtok, split_at, push_token}

-- The text is not empty.
abbrev pub IsNonempty : CString → Type 0
IsNonempty [] = ⊥
IsNonempty (c ∷ s) = Unit

-- The text does not hold `d`.
abbrev pub Avoids : ℕ → CString → Type 0
Avoids d s = All (λ c. c ≢ d) s

abbrev pub IsToken : ℕ → CString → Type 0
IsToken d s = IsNonempty s × Avoids d s

-- The texts one after the other, with `d` between them.
unfoldable pub join : ℕ → List CString → CString
join d [] = []
join d (w ∷ []) = w
join d (w ∷ v ∷ ws) = w ++ (d ∷ join d (v ∷ ws))

split_at-append :
    (d : ℕ) (w r : CString)
    → Avoids d w
    → split_at d (w ++ r) ≡ (w ++ (split_at d r).0, (split_at d r).1)
unfolding split_at
split_at-append d [] r h = refl
split_at-append d (c ∷ w) r h = ground (arith, split_at-append d w r, h.0)

push_token-cons : (w : CString) (ts : List CString) → IsNonempty w → push_token w ts ≡ w ∷ ts
unfolding push_token
push_token-cons [] ts h = absurd h
push_token-cons (c ∷ w) ts h = refl

strtok-end : (d : ℕ) (w : CString) → IsToken d w → strtok d w ≡ w ∷ []
unfolding strtok split_at
strtok-end d w h =
    let e : split_at d w ≡ (w, []) =
      ap (split_at d) (sym (append-nil w))
      ∙ split_at-append d w [] h.1
      ∙ ap (λ v. (v, [])) (append-nil w) in
    ap (λ p. push_token p.0 p.1) e ∙ push_token-cons w [] h.0

split_at_delimiter : (d : ℕ) (r : CString) → split_at d (d ∷ r) ≡ ([], strtok d r)
unfolding split_at strtok
split_at_delimiter d r = ground arith

strtok-append : (d : ℕ) (w r : CString) → IsToken d w → strtok d (w ++ (d ∷ r)) ≡ w ∷ strtok d r
unfolding strtok
strtok-append d w r h =
    let e : split_at d (w ++ (d ∷ r)) ≡ (w, strtok d r) =
      split_at-append d w (d ∷ r) h.1
      ∙ ap (λ (p : CString × List CString). (w ++ p.0, p.1)) (split_at_delimiter d r)
      ∙ ap (λ v. (v, strtok d r)) (append-nil w) in
    ap (λ p. push_token p.0 p.1) e ∙ push_token-cons w (strtok d r) h.0

-- Tokens that hold no delimiter and are not empty, joined by it, are read back by `strtok`.
pub strtok-join : (d : ℕ) (ws : List CString) → All (IsToken d) ws → strtok d (join d ws) ≡ ws
unfolding strtok split_at join
strtok-join d [] h = refl
strtok-join d (w ∷ []) h = strtok-end d w h.0
strtok-join d (w ∷ v ∷ ws) h =
    strtok-append d w (join d (v ∷ ws)) h.0 ∙ ap (λ ts. w ∷ ts) (strtok-join d (v ∷ ws) h.1)
