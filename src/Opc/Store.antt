-- ===== src/Opc/Store.antt =====
-- The arguments of an operation as its clients see them: a map from keys to values.
use mm_regression.Base.{
  ◌≡◌, refl, ◌∙◌, List, [], ◌∷◌, Option, none, some, if◌then◌else◌, Option-cases, inl, inr, arith,
}
use mm_regression.Base.Text.{CString, str_eq}
use mm_regression.Opc.{OpControl, nonempty, opc_get_value, opc_set_value}
use mm_regression.Opc.Laws.{opc_get_value-opc_set_value}

-- A store of arguments: a value that is set reads back, and the other keys read as before. The
-- empty text counts as no value.
pub record ArgStore (S : Type 0) : Type 0 where
  pub get : S → CString → Option CString
  pub set : S → CString → CString → Option S
  pub get-set :
      (s : S) (key value j : CString) {s' : S}
      → set s key value ≡ some s'
      → get s' j ≡ (if str_eq key j then nonempty value else get s j)

-- A store without a representation.
abbrev pub View : Type 0
View = CString → Option CString

abbrev pub update : View → CString → CString → View
update view key value = λ j. if str_eq key j then nonempty value else view j

-- The view after the writes, from the first to the last.
pub written : List (CString × CString) → View → View
written [] view = view
written ((key, value) ∷ writes) view = written writes (update view key value)

module _ {S : Type 0} (store : ArgStore S) where
  pub replay : List (CString × CString) → S → Option S
  replay [] s = some s
  replay ((key, value) ∷ writes) s = elim (store.set s key value) [
    | none ↦ none
    | some s' ↦ replay writes s'
  ]

  pub replay-none : (s : S) → replay [] s ≡ some s
  unfolding replay
  replay-none s = refl

  pub replay-first :
      (key value : CString) (writes : List (CString × CString)) (s t : S)
      → store.set s key value ≡ some t
      → replay ((key, value) ∷ writes) s ≡ replay writes t
  unfolding replay
  replay-first key value writes s t h = ground arith

  written_ext :
      (writes : List (CString × CString)) (f g : View) (j : CString)
      → ((k : CString) → f k ≡ g k)
      → written writes f j ≡ written writes g j
  unfolding written
  written_ext [] f g j h = h j
  written_ext ((key, value) ∷ writes) f g j h =
      written_ext writes (update f key value) (update g key value) j (λ k. rw h refl)

  -- What a client reads after its writes is what the view without a representation says.
  pub replay-refines :
      (writes : List (CString × CString)) (s s' : S) (j : CString)
      → replay writes s ≡ some s'
      → store.get s' j ≡ written writes (store.get s) j
  unfolding replay written
  replay-refines [] s s' j h = let same : s ≡ s' = ground arith in rw same refl
  replay-refines ((key, value) ∷ writes) s s' j h = elim (Option-cases (store.set s key value)) [
    | inl full ↦ absurd (ground arith)
    | inr (t, done) ↦
        let rest : replay writes t ≡ some s' = ground arith in
        replay-refines writes t s' j rest
        ∙ written_ext writes (store.get t) (update (store.get s) key value) j
            (λ k. store.get-set s key value k done)
  ]

abbrev pub opc_store : ArgStore OpControl
opc_store = record {
  get = opc_get_value;
  set = opc_set_value;
  get-set = λ opc key value j h. opc_get_value-opc_set_value opc key value j h;
}
