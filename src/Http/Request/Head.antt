-- ===== src/Http/Request/Head.antt =====
-- A reader of HTTP messages, independent of the writer: the lines up to the first empty one, each
-- ended by CRLF, and the bytes behind them.
use smoll.Base.{
  ℕ, ◌≡◌, ◌≢◌, refl, ap, ◌∙◌, List, [], ◌∷◌, ◌++◌, true, false, ◌&&◌, ◌==◌, Option, none, some,
  Bytes, Lacks, arith, append_assoc, append-nil, if◌then◌else◌,
}
use smoll.Http.Request.{crlf, Field, field_line}

-- A line in front of what the rest of the head holds.
abbrev pub put_line : Bytes → Option (List Bytes × Bytes) → Option (List Bytes × Bytes)
put_line line none = none
put_line line (some (lines, rest)) = some (line ∷ lines, rest)

-- `line` is the part of the current line that has been read. At a CRLF an empty line ends the head;
-- `end` is then the answer, and `more` else.
abbrev pub end_line : Bytes → Bytes → Option (List Bytes × Bytes) → Option (List Bytes × Bytes)
end_line [] rest more = some ([], rest)
end_line (c ∷ line) rest more = put_line (c ∷ line) more

pub read_from : Bytes → Bytes → Option (List Bytes × Bytes)
read_from line [] = none
read_from line (c ∷ []) = none
read_from line (c ∷ d ∷ s) = elim (c == 13 && d == 10) [
  | true ↦ end_line line s (read_from [] s)
  | false ↦ read_from (line ++ c ∷ []) (d ∷ s)
]

pub read_head : Bytes → Option (List Bytes × Bytes)
read_head s = read_from [] s

read_from-step :
    (line s : Bytes) (c d : ℕ)
    → c ≢ 13
    → read_from line (c ∷ d ∷ s) ≡ read_from (line ++ c ∷ []) (d ∷ s)
unfolding read_from
read_from-step line s c d h = ground arith

-- Bytes that are no CR belong to the line that they stand in.
read_from-line :
    (line xs s : Bytes)
    → Lacks 13 xs
    → read_from line (xs ++ (crlf ++ s)) ≡ end_line (line ++ xs) s (read_from [] s)
unfolding read_from
read_from-line line [] s h = rw append-nil
read_from-line line (c ∷ []) s h =
    read_from-step line (10 ∷ s) c 13 h.0
    ∙ read_from-line (line ++ c ∷ []) [] s tt
    ∙ ap (λ l. end_line l s (read_from [] s)) (append-nil (line ++ c ∷ []))
read_from-line line (c ∷ d ∷ xs) s h =
    read_from-step line (xs ++ (crlf ++ s)) c d h.0
    ∙ read_from-line (line ++ c ∷ []) (d ∷ xs) s h.1
    ∙ ap (λ l. end_line l s (read_from [] s)) (append_assoc line (c ∷ []) (d ∷ xs))

-- A line that is not empty comes first.
pub read_head-line :
    (line s : Bytes)
    → line ≢ []
    → Lacks 13 line
    → read_head (line ++ (crlf ++ s)) ≡ put_line line (read_head s)
unfolding read_head
read_head-line [] s ne h = absurd (ne refl)
read_head-line (c ∷ line) s ne h = read_from-line [] (c ∷ line) s h

-- The empty line ends the head.
pub read_head-end : (s : Bytes) → read_head (crlf ++ s) ≡ some ([], s)
unfolding read_head
read_head-end s = read_from-line [] [] s tt

abbrev pub put_byte : ℕ → Option (Bytes × Bytes) → Option (Bytes × Bytes)
put_byte c none = none
put_byte c (some (before, behind)) = some (c ∷ before, behind)

-- The text before the first byte `b`, and the text behind it.
pub cut : ℕ → Bytes → Option (Bytes × Bytes)
cut b [] = none
cut b (c ∷ s) = let later = put_byte c (cut b s) in if c == b then some ([], s) else later

pub cut-append : (b : ℕ) (xs s : Bytes) → Lacks b xs → cut b (xs ++ b ∷ s) ≡ some (xs, s)
unfolding cut
cut-append b [] s h = ground arith
cut-append b (c ∷ xs) s h = ground (arith, cut-append b xs s h.1, h.0)

-- What follows the colon begins with a space.
abbrev pub after_name : Option (Bytes × Bytes) → Option Field
after_name none = none
after_name (some (name, [])) = none
after_name (some (name, c ∷ value)) =
    if c == b' ' then some (record { name = name; value = value }) else none

-- "name: value".
pub read_field : Bytes → Option Field
read_field line = after_name (cut b':' line)

pub read_field-field_line : (f : Field) → Lacks b':' f.name → read_field (field_line f) ≡ some f
unfolding read_field field_line
read_field-field_line f h = rw (cut-append b':' f.name (b' ' ∷ f.value) h)
