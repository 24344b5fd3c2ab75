-- ===== src/Small/Redirect.antt =====
-- cpp/stdout_redirect.cpp: the buffer of `cout`, which is replaced by that of a string stream.
use smoll.Base.{◌≡◌, refl, [], ◌∷◌, ◌++◌, Option, none, some, Bytes, codes, c_str}

pub data Buffer : Type 0 where
  console str_buf : Buffer

-- `cout_buf` is `null` until it is set. What `printf` prints goes to the console in any case.
pub record Streams : Type 0 where
  pub rdbuf : Buffer
  pub cout_buf : Option Buffer
  pub str_text : Bytes
  pub shown : Bytes

abbrev pub initial : Streams
initial = record { rdbuf = console; cout_buf = none; str_text = []; shown = [] }

unfoldable pub set_cout_redirect : Streams → Streams
set_cout_redirect s = record s { cout_buf = some s.rdbuf; rdbuf = str_buf }

-- `cout << text`.
unfoldable pub write_cout : Bytes → Streams → Streams
write_cout text s = elim (s.rdbuf) [
  | console ↦ record s { shown = s.shown ++ text }
  | str_buf ↦ record s { str_text = s.str_text ++ text }
]

abbrev pub notice : Bytes
notice = codes "[cout rdbuf intercept] "

-- The test behind the message: the text is printed up to a NUL, and dropped.
unfoldable pub intercept : Streams → Streams
intercept s = elim (s.str_text) [
  | [] ↦ s
  | b ∷ bs ↦ record s { shown = s.shown ++ (notice ++ c_str (b ∷ bs)); str_text = [] }
]

-- `main` up to its end.
unfoldable pub main : Streams
unfolding set_cout_redirect write_cout intercept
main = intercept (write_cout (codes "Welcome into Main function!\n") (set_cout_redirect initial))

-- Behind `main` the string stream is destroyed before `cout` is flushed for the last time: none is a
-- flush of a destroyed buffer.
unfoldable pub at_exit : Streams → Option Bytes
at_exit s = elim (s.rdbuf) [ console ↦ some s.shown | str_buf ↦ none ]

main_intercepts : main ≡ record {
  rdbuf = str_buf;
  cout_buf = some console;
  str_text = [];
  shown = codes "[cout rdbuf intercept] Welcome into Main function!\n";
}
unfolding main c_str
main_intercepts = refl

main_undefined_at_exit : at_exit main ≡ none
unfolding main at_exit
main_undefined_at_exit = refl
