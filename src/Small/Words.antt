-- ===== src/Small/Words.antt =====
-- cpp/split_string_on_spaces.cpp: the words of a text, for any text.
pub mod Last
mod Tests
use smoll.Base.{
  ℕ, zero, suc, ◌+◌, ◌≡◌, List, [], ◌∷◌, ◌++◌, Bool, true, false, ◌&&◌, ◌||◌, Option, none, some,
  Bytes, codes, leb, ◌==◌, if◌then◌else◌, length,
}

-- `isspace`.
abbrev pub is_space : ℕ → Bool
is_space c = c == b' ' || leb 9 c && leb c 13

-- The white space in front of a word.
unfoldable pub skip_space : Bytes → Bytes
skip_space [] = []
skip_space (c ∷ s) = let rest = skip_space s in if is_space c then rest else c ∷ s

-- The bytes up to a space, and what is behind them.
unfoldable pub take_word : Bytes → Bytes × Bytes
take_word [] = ([], [])
take_word (c ∷ s) =
    let (word, rest) = take_word s in if is_space c then ([], c ∷ s) else (c ∷ word, rest)

-- `ss >> buf`: none where no word is left; `buf` then keeps its value.
unfoldable pub extract : Bytes → Option (Bytes × Bytes)
unfolding skip_space take_word
extract text = elim (skip_space text) [ [] ↦ none | c ∷ s ↦ some (take_word (c ∷ s)) ]

pub record Split : Type 0 where
  pub printed : Bytes
  pub tokens : List Bytes

-- The `while` loop, whose body is the print alone: `push_back` stands behind it, in spite of its
-- indentation. A round takes a byte at least, so one round more than there are bytes is enough.
unfoldable pub split_loop : ℕ → Bytes → Bytes → Bytes → Split
unfolding extract
split_loop zero text buf printed = record { printed = printed; tokens = [] }
split_loop (suc rounds) text buf printed = elim (extract text) [
  | none ↦ record { printed = printed ++ codes "\n"; tokens = buf ∷ [] }
  | some (word, rest) ↦ split_loop rounds rest word (printed ++ (word ++ codes "/"))
]

unfoldable pub main : Bytes → Split
unfolding split_loop
main str = split_loop (suc (length str)) str [] []
