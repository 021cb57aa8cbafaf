-- ===== src/Mincore/Buffer/Tests.antt =====
-- Lines that are built in a heap full of ones.
use mm_regression.Base.{ℕ, ◌≡◌, refl, List, [], ◌∷◌, some}
use mm_regression.Base.Text.{codes}
use mm_regression.Mincore.Buffer.{map_text}

abbrev ones : ℕ → ℕ
ones i = 1

-- Every second page is in memory.
abbrev found : List ℕ
found = 1 ∷ 0 ∷ 1 ∷ 0 ∷ []

map_text_example : map_text ones (codes "mincore1") 12288 found ≡ some (codes "mincore1:101\n")
unfolding map_text
map_text_example = refl

-- With a shorter tag nothing of the map is shown.
map_text-cut : map_text ones (codes "mincore") 12288 found ≡ some (codes "mincore:")
unfolding map_text
map_text-cut = refl
