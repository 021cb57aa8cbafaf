-- ===== src/Backend/Tests.antt =====
-- Runs of the walk over the memory types.
use mm_regression.Base.{◌≡◌, refl, [], ◌∷◌, arith}
use mm_regression.Backend.{find_next_backend, for_each_backend, nr_backend_types}
use mm_regression.Backend.Walk.{
  IsNext, chosen, find_next_backend-IsNext, for_each_backend-eq-chosen,
}

find_next_backend-IsNext_example : IsNext 0x212 2 (find_next_backend 0x212 2)
find_next_backend-IsNext_example = find_next_backend-IsNext 0x212 2 (omega arith)

for_each_backend-eq-chosen_example : for_each_backend 0x212 ≡ chosen 0x212 nr_backend_types 0
for_each_backend-eq-chosen_example = for_each_backend-eq-chosen 0x212

walked : for_each_backend 0x212 ≡ 1 ∷ 4 ∷ 9 ∷ []
unfolding for_each_backend
walked = refl
