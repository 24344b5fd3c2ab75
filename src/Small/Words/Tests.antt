-- ===== src/Small/Words/Tests.antt =====
-- The program's own text.
use smoll.Base.{◌≡◌, refl, List, [], ◌∷◌, Bytes, codes}
use smoll.Small.Words.{main}
use smoll.Small.Words.Last.{AreWords, main-words}

abbrev split_me : List (Bytes × Bytes)
split_me = (codes "Split", codes " ") ∷ (codes "me", []) ∷ []

split_me-AreWords : AreWords split_me
split_me-AreWords = (
  (λ e. cc),
  (refl, (refl, (refl, (refl, (refl, tt))))),
  (refl, tt),
  (λ e. cc),
  ((λ e. cc), (refl, (refl, tt)), tt, (λ e. refl), tt),
)

main-words_example :
    main (codes "Split me") ≡ record { printed = codes "Split/me/\n"; tokens = codes "me" ∷ [] }
main-words_example = main-words [] split_me tt split_me-AreWords
