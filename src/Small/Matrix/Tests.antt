-- ===== src/Small/Matrix/Tests.antt =====
-- The program's own array.
use smoll.Base.{ℕ, ◌≡◌, refl, List, [], ◌∷◌, none, some}
use smoll.Small.Matrix.{main}
use smoll.Small.Matrix.Static.{static_part}
use smoll.Small.Matrix.Safety.{main-frees}

main-frees_example : main 2 3 ≡ some (0 ∷ 1 ∷ 2 ∷ 1 ∷ 2 ∷ 3 ∷ [], none ∷ none ∷ none ∷ [])
main-frees_example = main-frees 2 3

abbrev numbers : List ℕ
numbers = 1 ∷ 2 ∷ 3 ∷ 4 ∷ 5 ∷ 6 ∷ []

prints_numbers : static_part 2 3 numbers ≡ some ((3, 3), (4, numbers))
unfolding static_part
prints_numbers = refl
