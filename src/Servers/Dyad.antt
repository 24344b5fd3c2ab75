-- ===== src/Servers/Dyad.antt =====
-- cpp/server/httpserver_dyad.cpp: the listeners that a connection gets, and `onLine`. dyad splits the
-- data into lines; what a handler writes is a list of texts.
pub mod Listeners
mod Tests
use smoll.Base.{
  ℕ, zero, suc, ◌+◌, ◌≤◌, ◌<◌, ◌≡◌, refl, ap, ◌∙◌, List, [], ◌∷◌, ◌++◌, Bool, true, false, ◌&&◌,
  ◌||◌, Option, none, some, Bytes, codes, leb, ◌==◌, if◌then◌else◌, arith, length, take, All,
  Option-cases, inl, inr,
}

-- `isspace`.
abbrev pub is_space : ℕ → Bool
is_space c = c == b' ' || leb 9 c && leb c 13

-- White space of a format, or in front of a conversion: any amount of it is skipped.
unfoldable pub skip_space : Bytes → Bytes
skip_space [] = []
skip_space (c ∷ s) = let rest = skip_space s in if is_space c then rest else c ∷ s

-- `%<width>s`, behind the white space: up to `width` bytes in front of a space or a NUL.
unfoldable pub scan_word : ℕ → Bytes → Bytes
scan_word zero s = []
scan_word (suc width) [] = []
scan_word (suc width) (c ∷ s) =
    let rest = scan_word width s in if is_space c || c == 0 then [] else c ∷ rest

-- The literal part of a format.
unfoldable pub skip_literal : Bytes → Bytes → Option Bytes
skip_literal [] s = some s
skip_literal (c ∷ f) [] = none
skip_literal (c ∷ f) (d ∷ s) = let rest = skip_literal f s in if c == d then rest else none

abbrev pub nonempty : Bytes → Option Bytes
nonempty [] = none
nonempty (c ∷ s) = some (c ∷ s)

-- The conversion, where the literal part matched.
unfoldable pub scanned : Option Bytes → Option Bytes
unfolding scan_word skip_space
scanned none = none
scanned (some rest) = nonempty (scan_word 127 (skip_space rest))

-- `sscanf(data, "<verb> %127s", path) == 1`, with the path.
unfoldable pub scan_path : Bytes → Bytes → Option Bytes
unfolding skip_literal scanned
scan_path verb line = scanned (skip_literal verb line)

-- What `onLine` writes to the stream, and the path that it prints.
pub record Reaction : Type 0 where
  pub path : Option Bytes
  pub written : List Bytes

abbrev pub status_line : Bytes
status_line = codes "HTTP/1.1 200 OK\r\n\r\n"

-- The branches, on the paths that the two formats scan.
abbrev pub react : Option Bytes → Option Bytes → Reaction
react (some path) put = record { path = some path; written = status_line ∷ codes "dht::get()" ∷ [] }
react none (some path) = record { path = some path; written = status_line ∷ [] }
react none none = record { path = none; written = [] }

unfoldable pub on_line : Bytes → Reaction
unfolding scan_path
on_line line = react (scan_path (codes "GET") line) (scan_path (codes "PUT") line)

-- A byte of a path.
abbrev pub IsPathByte : ℕ → Type 0
IsPathByte c = (is_space c || c == 0) ≡ false

scan_word-take :
    (width : ℕ) (s t : Bytes) → All IsPathByte s → scan_word width (s ++ b' ' ∷ t) ≡ take width s
unfolding scan_word
scan_word-take zero s t h = refl
scan_word-take (suc width) [] t h = refl
scan_word-take (suc width) (c ∷ s) t h = rw (h.0, scan_word-take width s t h.1) refl

skip_literal-append : (f s : Bytes) → skip_literal f (f ++ s) ≡ some s
unfolding skip_literal
skip_literal-append [] s = refl
skip_literal-append (c ∷ f) s = ground (arith, skip_literal-append f s)

skip_space-word : (c : ℕ) (s : Bytes) → IsPathByte c → skip_space (b' ' ∷ c ∷ s) ≡ c ∷ s
unfolding skip_space
skip_space-word c s h = ground arith

-- What stands behind the verb in the line of a request.
abbrev pub request_end : Bytes → Bytes → Bytes
request_end path rest = b' ' ∷ (path ++ b' ' ∷ rest)

scan_path-request :
    (verb s t : Bytes) (c : ℕ)
    → All IsPathByte (c ∷ s)
    → scan_path verb (verb ++ request_end (c ∷ s) t) ≡ some (take 127 (c ∷ s))
unfolding scan_path
scan_path-request verb s t c h =
    rw
      (
        skip_literal-append verb (request_end (c ∷ s) t),
        scan_path,
        skip_space-word c (s ++ b' ' ∷ t) h.0,
        scan_word-take 127 (c ∷ s) t h,
      )
      refl

other_verb : (s : Bytes) → scan_path (codes "GET") (codes "PUT" ++ s) ≡ none
unfolding scan_path skip_literal
other_verb s = refl

-- A line of the verb GET or PUT, a space, a path and another space gets the status line, and GET the
-- text behind it; the path is the one in the line, cut behind its 127th byte.
pub on_line_requests :
    (c : ℕ) (s t : Bytes)
    → All IsPathByte (c ∷ s)
    → (on_line (codes "GET" ++ request_end (c ∷ s) t) ≡ record {
      path = some (take 127 (c ∷ s));
      written = status_line ∷ codes "dht::get()" ∷ [];
    })
      × (on_line (codes "PUT" ++ request_end (c ∷ s) t)
          ≡ record { path = some (take 127 (c ∷ s)); written = status_line ∷ [] })
unfolding on_line
on_line_requests c s t h =
    let put = codes "PUT" ++ request_end (c ∷ s) t in
    (
      ap (λ path. react path (scan_path (codes "PUT") (codes "GET" ++ request_end (c ∷ s) t)))
          (scan_path-request (codes "GET") s t c h),
      ap (λ path. react path (scan_path (codes "PUT") put)) (other_verb (request_end (c ∷ s) t))
          ∙ ap (λ path. react none path) (scan_path-request (codes "PUT") s t c h),
    )

-- Whether the path fits the array of 128 bytes, with its NUL.
abbrev pub Fits : Option Bytes → Type 0
Fits none = Unit
Fits (some path) = suc (length path) ≤ 128

scan_word_bounded : (width : ℕ) (s : Bytes) → length (scan_word width s) ≤ width
unfolding scan_word
scan_word_bounded zero s = omega arith
scan_word_bounded (suc width) [] = omega arith
scan_word_bounded (suc width) (c ∷ s) = ground (arith, scan_word_bounded width s)

nonempty-Fits : (s : Bytes) → length s ≤ 127 → Fits (nonempty s)
nonempty-Fits [] h = tt
nonempty-Fits (c ∷ s) h = omega arith

scanned-Fits : (o : Option Bytes) → Fits (scanned o)
unfolding scanned
scanned-Fits none = tt
scanned-Fits (some rest) =
    nonempty-Fits (scan_word 127 (skip_space rest)) (scan_word_bounded 127 (skip_space rest))

react-Fits : (get put : Option Bytes) → Fits get → Fits put → Fits (react get put).path
react-Fits (some path) put h j = h
react-Fits none (some path) h j = j
react-Fits none none h j = tt

-- The path that is scanned from a line, whatever the line is, fits the array that it is written to.
pub on_line-Fits : (line : Bytes) → Fits (on_line line).path
unfolding on_line
on_line-Fits line =
    react-Fits (scan_path (codes "GET") line) (scan_path (codes "PUT") line)
      (scanned-Fits (skip_literal (codes "GET") line))
      (scanned-Fits (skip_literal (codes "PUT") line))
