-- ===== src/Small/Words/Last.antt =====
-- All words are printed, but only the last one is kept.
use smoll.Base.{
  ℕ, zero, suc, ◌<◌, ◌≤◌, ◌≡◌, ◌≢◌, refl, sym, ap, ◌∙◌, List, [], ◌∷◌, ◌++◌, true, false, some,
  none, Bytes, codes, length, length-append, arith, All, append_assoc,
}
use smoll.Small.Words.{is_space, skip_space, take_word, extract, split_loop, main}

abbrev pub IsSpace : ℕ → Type 0
IsSpace c = is_space c ≡ true

abbrev pub IsLetter : ℕ → Type 0
IsLetter c = is_space c ≡ false

-- A text: words, each with the white space behind it.
abbrev pub spaced : List (Bytes × Bytes) → Bytes
spaced [] = []
spaced (p ∷ ps) = p.0 ++ (p.1 ++ spaced ps)

-- No word is empty, and white space stands between any two.
abbrev pub AreWords : List (Bytes × Bytes) → Type 0
AreWords [] = Unit
AreWords (p ∷ ps) =
    (p.0 ≢ []) × All IsLetter p.0 × All IsSpace p.1 × (p.1 ≡ [] → ps ≡ []) × AreWords ps

abbrev pub slashed : List (Bytes × Bytes) → Bytes
slashed [] = []
slashed (p ∷ ps) = (p.0 ++ codes "/") ++ slashed ps

abbrev pub last_word : Bytes → List (Bytes × Bytes) → Bytes
last_word word [] = word
last_word word (p ∷ ps) = last_word p.0 ps

skip_space-gap : (gap s : Bytes) → All IsSpace gap → skip_space (gap ++ s) ≡ skip_space s
unfolding skip_space
skip_space-gap [] s h = refl
skip_space-gap (c ∷ gap) s h = rw h.0 (skip_space-gap gap s h.1)

-- What ends a word.
take_word-end :
    (word gap : Bytes) (ps : List (Bytes × Bytes))
    → All IsLetter word
    → All IsSpace gap
    → (gap ≡ [] → ps ≡ [])
    → take_word (word ++ (gap ++ spaced ps)) ≡ (word, gap ++ spaced ps)
unfolding take_word
take_word-end [] [] [] h g e = refl
take_word-end [] [] (p ∷ ps) h g e = absurd (cc (e refl))
take_word-end [] (c ∷ gap) ps h g e = rw g.0 refl
take_word-end (c ∷ word) gap ps h g e = rw (h.0, take_word-end word gap ps h.1 g e) refl

extract-gap : (gap : Bytes) → All IsSpace gap → extract (gap ++ []) ≡ none
unfolding extract
extract-gap gap h = rw (skip_space-gap gap [] h, extract) refl

extract-word :
    (gap : Bytes) (p : Bytes × Bytes) (ps : List (Bytes × Bytes))
    → All IsSpace gap
    → AreWords (p ∷ ps)
    → extract (gap ++ spaced (p ∷ ps)) ≡ some (p.0, p.1 ++ spaced ps)
unfolding extract
extract-word gap ([], after) ps g h = absurd (h.0 refl)
extract-word gap (c ∷ word, after) ps g h =
    rw (skip_space-gap gap (c ∷ (word ++ (after ++ spaced ps))) g, extract)
      (rw h.1.0 (ap some (take_word-end (c ∷ word) after ps h.1 h.2 h.3)))

-- Every word takes a byte.
length-spaced : (ps : List (Bytes × Bytes)) → AreWords ps → length ps ≤ length (spaced ps)
length-spaced [] h = omega arith
length-spaced (([], after) ∷ ps) h = absurd (h.0 refl)
length-spaced ((c ∷ word, after) ∷ ps) h = omega (
  arith,
  length-spaced ps h.4,
  length-append word (after ++ spaced ps),
  length-append after (spaced ps),
)

split_loop-words :
    (ps : List (Bytes × Bytes)) (rounds : ℕ) (gap buf printed : Bytes)
    → length ps < rounds
    → All IsSpace gap
    → AreWords ps
    → split_loop rounds (gap ++ spaced ps) buf printed
      ≡ record { printed = printed ++ (slashed ps ++ codes "\n"); tokens = last_word buf ps ∷ [] }
unfolding split_loop
split_loop-words ps zero gap buf printed less g h = absurd (omega arith)
split_loop-words [] (suc rounds) gap buf printed less g h = rw (extract-gap gap g, split_loop) refl
split_loop-words (p ∷ ps) (suc rounds) gap buf printed less g h =
    rw (extract-word gap p ps g h, split_loop)
      (split_loop-words ps rounds p.1 p.0 (printed ++ (p.0 ++ codes "/")) (omega arith) h.2 h.4)
    ∙ ap (λ t. record { printed = t; tokens = last_word p.0 ps ∷ [] })
        (append_assoc printed (p.0 ++ codes "/") (slashed ps ++ codes "\n")
          ∙ ap (λ t. printed ++ t)
              (sym (append_assoc (p.0 ++ codes "/") (slashed ps) (codes "\n"))))

-- For every text of words between white space: the program prints each word with a slash behind it, in
-- order, and its tokens are only the last word, or the empty string where there is no word.
pub main-words :
    (gap : Bytes) (ps : List (Bytes × Bytes))
    → All IsSpace gap
    → AreWords ps
    → main (gap ++ spaced ps)
      ≡ record { printed = slashed ps ++ codes "\n"; tokens = last_word [] ps ∷ [] }
unfolding main
main-words gap ps g h =
    split_loop-words ps (suc (length (gap ++ spaced ps))) gap [] []
      (omega (arith, length-append gap (spaced ps), length-spaced ps h)) g h
