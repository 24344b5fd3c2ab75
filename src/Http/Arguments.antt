-- ===== src/Http/Arguments.antt =====
-- cpp/restinio/client.cpp: `main`, up to the request that it sends.
pub mod Sent
use smoll.Base.{
  ℕ, ◌+◌, ◌-◌, ◌*◌, ◌%◌, ◌≤◌, ◌<◌, ◌≡◌, ◌≢◌, refl, sym, ap, ◌∙◌, List, [], ◌∷◌, ◌++◌, Bool, true,
  false, ◌&&◌, ◌||◌, Option, none, some, Bytes, codes, arith, ltb, leb, ◌==◌, if◌then◌else◌,
  same_text, decimal, decimal-IsDigit, IsDigit, value_from, value_from-decimal, All, All-append,
  Lacks, length,
}
use smoll.Http.Request.{
  Outcome, ok, invalid_argument, ◌>>=◌, Header, Field, ConnectionHeader, keep_alive,
  create_http_request, connection_text,
}
use smoll.Http.Request.Reader.{Message, read_message, IsCleanField, OneLine}
use smoll.Http.Request.Lines.{version_text, connection_field, length_fields, sent_body}
use smoll.Http.Request.RoundTrip.{read_message-create, IsCleanHeader}

abbrev is_space : ℕ → Bool
is_space c = c == b' ' || (leb 9 c && leb c 13)

abbrev is_digit : ℕ → Bool
is_digit c = leb b'0' c && leb c b'9'

-- The digits at the front, behind the number `n`.
atoi_digits : ℕ → Bytes → ℕ
atoi_digits n [] = n
atoi_digits n (c ∷ s) =
    let more = atoi_digits (n * 10 + (c - b'0')) s in if is_digit c then more else n

-- An optional sign; a negative number is taken to `in_port_t` at once, as its remainder.
atoi_sign : Bytes → ℕ
unfolding atoi_digits
atoi_sign [] = 0
atoi_sign (c ∷ s) =
    if c == b'-'
    then (65536 - atoi_digits 0 s % 65536) % 65536
    else if c == b'+'
    then atoi_digits 0 s % 65536
    else atoi_digits 0 (c ∷ s) % 65536

-- `const in_port_t port = atoi(argv[3])`, where the number fits an `int`: 16 bits are kept.
unfoldable pub port_of : Bytes → ℕ
unfolding atoi_sign
port_of [] = 0
port_of (c ∷ s) = let later = port_of s in if is_space c then later else atoi_sign (c ∷ s)

-- What restinio gives: the two methods, the texts of a method and of three field names, and the
-- version of a new header.
pub record Restinio (M : Type 0) : Type 0 where
  pub http_get : M
  pub http_post : M
  pub method_to_string : M → Bytes
  pub host : Bytes
  pub user_agent : Bytes
  pub accept : Bytes
  pub major : ℕ
  pub minor : ℕ

-- `main` returns 1, or sends a request, or ends by an exception.
pub data Run : Type 0 where
  usage : Run
  requested : Outcome Bytes → Run

module _ {M : Type 0} (lib : Restinio M) where
  unfoldable pub method_of : Bytes → Outcome M
  method_of method_str =
      if same_text method_str (codes "get")
      then ok lib.http_get
      else if same_text method_str (codes "post")
      then ok lib.http_post
      else invalid_argument method_str

  unfoldable pub header_fields : Bytes → ℕ → List Field
  header_fields addr port =
      record { name = lib.host; value = addr ++ (codes ":" ++ decimal port) }
      ∷ record { name = lib.user_agent; value = codes "RESTinio client" }
      ∷ record { name = lib.accept; value = codes "*/*" }
      ∷ []

  unfoldable pub request_of : Bytes → Bytes → Bytes → Bytes → Bytes → Outcome Bytes
  unfolding method_of header_fields
  request_of method_str addr port_text target body = do
    method ← method_of method_str
    create_http_request lib.method_to_string
        (record { method = method; target = target; major = lib.major; minor = lib.minor })
        (header_fields addr (port_of port_text)) keep_alive body

  -- `argv[5] ? argv[5] : ""`.
  abbrev pub body_of : List Bytes → Bytes
  body_of [] = []
  body_of (body ∷ args) = body

  -- The arguments behind the program's name.
  unfoldable pub main : List Bytes → Run
  unfolding request_of
  main [] = usage
  main (a ∷ []) = usage
  main (a ∷ b ∷ []) = usage
  main (a ∷ b ∷ c ∷ []) = usage
  main (method_str ∷ addr ∷ port_text ∷ target ∷ args) =
      requested (request_of method_str addr port_text target (body_of args))
