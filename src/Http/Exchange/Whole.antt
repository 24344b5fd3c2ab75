-- ===== src/Http/Exchange/Whole.antt =====
-- What becomes of a response that is read in pieces.
use smoll.Base.{
  ℕ, ◌+◌, ◌≡◌, ◌≢◌, refl, sym, ap, ◌∙◌, List, [], ◌∷◌, ◌++◌, Option, some, Bytes, if◌then◌else◌,
  append_assoc, append-nil, All,
}
use smoll.Async.Net.{ErrorCode, is_eof}
use smoll.Http.Exchange.{
  Parser, Ending, finished, read_error, Exchange, read_loop, do_request, Result, returned, thrown,
  collect_loop, do_custom_request,
}

-- A parser may be fed in any pieces that bring something: a call with none tells http_parser that the
-- stream is over.
pub record IsIncremental {P : Type 0} (parser : Parser P) : Type 0 where
  pub execute_append :
      (p : P) (a b : Bytes)
      → a ≢ []
      → b ≢ []
      → parser.execute p (a ++ b) ≡ parser.execute (parser.execute p a) b

-- The parser that has been fed a text; it is not called for no text.
abbrev pub fed : {P : Type 0} → Parser P → P → Bytes → P
fed parser p [] = p
fed parser p (c ∷ cs) = parser.execute p (c ∷ cs)

execute-fed :
    {P : Type 0} (parser : Parser P) (p : P) (a : Bytes) (c : ℕ) (cs : Bytes)
    → IsIncremental parser
    → parser.execute (fed parser p a) (c ∷ cs) ≡ fed parser p (a ++ c ∷ cs)
execute-fed parser p [] c cs law = refl
execute-fed parser p (d ∷ ds) c cs law = sym (law.execute_append p (d ∷ ds) (c ∷ cs) (cc) (cc))

pub execute-fed_text :
    {P : Type 0} (parser : Parser P) (p : P) (a b : Bytes)
    → IsIncremental parser
    → b ≢ []
    → parser.execute (fed parser p a) b ≡ fed parser p (a ++ b)
execute-fed_text parser p a [] law h = absurd (h refl)
execute-fed_text parser p a (c ∷ cs) law h = execute-fed parser p a c cs law

-- A read that brings something.
abbrev pub IsPiece : Bytes × ErrorCode → Type 0
IsPiece r = r.0 ≢ []

abbrev pub bytes_of : List (Bytes × ErrorCode) → Bytes
bytes_of [] = []
bytes_of (r ∷ reads) = r.0 ++ bytes_of reads

abbrev pub ending_of : ErrorCode → Ending
ending_of ec = if is_eof ec then finished else read_error ec

abbrev pub result_of : ErrorCode → Bytes → Result
result_of ec sout = if is_eof ec then returned sout else thrown ec

-- What a loop over the reads takes of a response: all, unless no read behind `read_until` brings
-- anything. Then it does not even take the bytes of `read_until`.
abbrev pub taken_of : Bytes → List (Bytes × ErrorCode) → Bytes
taken_of until [] = []
taken_of until (first ∷ pieces) = until ++ bytes_of (first ∷ pieces)

-- The parser is left fed with the text.
abbrev Feeds : {P : Type 0} → Parser P → P → Bytes → ErrorCode → Option (Exchange P) → Type 0
Feeds parser p text ec o =
    (n : ℕ) × (o
      ≡ some (record { parser = fed parser p text; complaints = n; ending = ending_of ec }))

module _ {P : Type 0} (parser : Parser P) (law : IsIncremental parser) (ec : ErrorCode)
    (later : List (Bytes × ErrorCode)) where
  read_loop-Feeds :
      (pieces : List (Bytes × ErrorCode)) (p : P) (a : Bytes) (n : ℕ)
      → All IsPiece pieces
      → Feeds parser p
          (a ++ bytes_of pieces)
          ec
          (read_loop parser [] (pieces ++ ([], ec) ∷ later) (fed parser p a) n)
  unfolding read_loop
  read_loop-Feeds [] p a n h = rw append-nil (n, refl)
  read_loop-Feeds (([], e) ∷ pieces) p a n h = absurd (h.0 refl)
  read_loop-Feeds ((c ∷ cs, e) ∷ pieces) p a n h =
      let count =
        if parser.is_failed (parser.execute (fed parser p a) (c ∷ cs)) then n + 1 else n in
      let (m, rest) = read_loop-Feeds pieces p (a ++ c ∷ cs) count h.1 in
      (
        m,
        ap (λ q. read_loop parser [] (pieces ++ ([], ec) ∷ later) q count)
              (execute-fed parser p a c cs law)
            ∙ rest
            ∙ ap
                (λ t.
                  some (record { parser = fed parser p t; complaints = m; ending = ending_of ec }))
                (append_assoc a (c ∷ cs) (bytes_of pieces)),
      )

pub fed-nonempty :
    {P : Type 0} (parser : Parser P) (p : P) (a : Bytes) (c : ℕ) (cs : Bytes)
    → fed parser p (a ++ c ∷ cs) ≡ parser.execute p (a ++ c ∷ cs)
fed-nonempty parser p [] c cs = refl
fed-nonempty parser p (d ∷ ds) c cs = refl

collect_loop-returns :
    (pieces : List (Bytes × ErrorCode)) (ec : ErrorCode) (later : List (Bytes × ErrorCode))
    (sout : Bytes)
    → All IsPiece pieces
    → collect_loop [] (pieces ++ ([], ec) ∷ later) sout
      ≡ some (result_of ec (sout ++ bytes_of pieces))
unfolding collect_loop
collect_loop-returns [] ec later sout h = rw append-nil refl
collect_loop-returns (([], e) ∷ pieces) ec later sout h = absurd (h.0 refl)
collect_loop-returns ((c ∷ cs, e) ∷ pieces) ec later sout h =
    collect_loop-returns pieces ec later (sout ++ c ∷ cs) h.1
    ∙ ap (λ s. some (result_of ec s)) (append_assoc sout (c ∷ cs) (bytes_of pieces))

-- The reads bring something, up to the one that ends the loop. Both exchanges come to an end: the parser
-- of client.cpp, if it may be fed in any pieces, has been fed what the loop takes of the response, and
-- nothing twice, and the string of client_custom_http_methods.cpp is just that. An error other than the
-- end of the stream is thrown.
pub response_parsed :
    {P : Type 0} (parser : Parser P) (until : Bytes) (pieces later : List (Bytes × ErrorCode))
    (ec : ErrorCode) (p : P)
    → IsIncremental parser
    → All IsPiece pieces
    → let reads = pieces ++ ([], ec) ∷ later in
      ((n : ℕ) × (do_request parser until reads p
          ≡ some (record {
            parser = fed parser p (taken_of until pieces);
            complaints = n;
            ending = ending_of ec;
          })))
      × (do_custom_request until reads ≡ some (result_of ec (taken_of until pieces)))
unfolding do_request do_custom_request read_loop collect_loop
response_parsed parser until [] later ec p law h = ((0, refl), refl)
response_parsed parser until (([], e) ∷ pieces) later ec p law h = absurd (h.0 refl)
response_parsed parser until ((c ∷ cs, e) ∷ pieces) later ec p law h =
    let whole = append_assoc until (c ∷ cs) (bytes_of pieces) in
    let first = until ++ c ∷ cs in
    let count = if parser.is_failed (parser.execute p first) then 0 + 1 else 0 in
    let (n, all) = read_loop-Feeds parser law ec later pieces p first count h.1 in
    (
      (
        n,
        ap (λ q. read_loop parser [] (pieces ++ ([], ec) ∷ later) q count)
              (sym (fed-nonempty parser p until c cs))
            ∙ all
            ∙ ap
                (λ t.
                  some (record { parser = fed parser p t; complaints = n; ending = ending_of ec }))
                whole,
      ),
      collect_loop-returns pieces ec later first h.1 ∙ ap (λ s. some (result_of ec s)) whole,
    )
