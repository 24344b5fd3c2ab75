-- ===== src/Http/Exchange.antt =====
-- cpp/restinio/client.cpp: `do_request`, inside `do_with_socket`, and the one of
-- client_custom_http_methods.cpp. The calls of asio return what the
-- environment lists: the bytes that `read_until` put in the stream buffer, and the outcomes of the
-- later reads. The parser is http_parser's: a state, what a call of it makes of that state, and
-- whether the state is in error.
pub mod Whole
use smoll.Base.{
  ℕ, ◌+◌, ◌≡◌, ◌≢◌, refl, ap, ◌∙◌, List, [], ◌∷◌, ◌++◌, Bool, true, false, Option, none, some,
  Bytes, arith, if◌then◌else◌, append_assoc, append-nil,
}
use smoll.Async.Net.{ErrorCode, is_eof}

pub record Parser (P : Type 0) : Type 0 where
  pub execute : P → Bytes → P
  pub is_failed : P → Bool

-- How the lambda ends: the read error is the end of the stream, or it is thrown.
pub data Ending : Type 0 where
  finished : Ending
  read_error : ErrorCode → Ending

pub record Exchange (P : Type 0) : Type 0 where
  pub parser : P
  pub complaints : ℕ
  pub ending : Ending

abbrev pub is_empty : Bytes → Bool
is_empty [] = true
is_empty (b ∷ bs) = false

module _ {P : Type 0} (parser : Parser P) where
  -- The `while` loop. `buffer` is what the stream buffer still holds: the body of the loop drains it.
  -- `none` is a read that does not return.
  unfoldable pub read_loop : Bytes → List (Bytes × ErrorCode) → P → ℕ → Option (Exchange P)
  read_loop buffer [] p complaints = none
  read_loop buffer ((bytes, ec) ∷ reads) p complaints =
      let q = parser.execute p (buffer ++ bytes) in
      let rest = read_loop [] reads q (if parser.is_failed q then complaints + 1 else complaints) in
      let done : Exchange P = record {
        parser = p;
        complaints = complaints;
        ending = if is_eof ec then finished else read_error ec;
      } in
      if is_empty bytes then some done else rest

  -- From `read_until` on.
  unfoldable pub do_request : Bytes → List (Bytes × ErrorCode) → P → Option (Exchange P)
  unfolding read_loop
  do_request until reads p = read_loop until reads p 0

-- `do_request` of client_custom_http_methods.cpp: the string that it returns, or the read error that
-- it throws.
pub data Result : Type 0 where
  returned : Bytes → Result
  thrown : ErrorCode → Result

-- Its loop, with the text of `sout`.
unfoldable pub collect_loop : Bytes → List (Bytes × ErrorCode) → Bytes → Option Result
collect_loop buffer [] sout = none
collect_loop buffer ((bytes, ec) ∷ reads) sout =
    let rest = collect_loop [] reads (sout ++ (buffer ++ bytes)) in
    let done = if is_eof ec then returned sout else thrown ec in
    if is_empty bytes then some done else rest

unfoldable pub do_custom_request : Bytes → List (Bytes × ErrorCode) → Option Result
unfolding collect_loop
do_custom_request until reads = collect_loop until reads []
