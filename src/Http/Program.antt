-- ===== src/Http/Program.antt =====
-- cpp/restinio/client.cpp and client_custom_http_methods.cpp: `do_with_socket` and the whole programs,
-- from the arguments to the response. The network is a parameter: each call of asio gives its result,
-- or none where it throws. http_parser is a parameter too, with the parser's state: the pointer of
-- client.cpp is never given a parser, and the model is of what the calls mean with one. What is printed
-- is left out.
pub mod Agreement
pub mod Response
pub mod Listening
mod Tests
use smoll.Base.{
  ℕ, ◌≡◌, List, [], ◌∷◌, ◌++◌, Bool, true, Option, none, some, Bytes, decimal, if◌then◌else◌,
}
use smoll.Async.Net.{ErrorCode}
use smoll.Http.Request.{Outcome, ok, invalid_argument, crlf, keep_alive}
use smoll.Http.Arguments.{Restinio, port_of, request_of, header_fields, body_of}
use smoll.Http.Methods.{Numbers, StandardMethods}
use smoll.Http.Methods.Streamed.{custom_request_of}
use smoll.Http.Exchange.{
  Parser, Exchange, Ending, finished, read_error, do_request, Result, returned, thrown,
  do_custom_request,
}

-- Addresses, endpoints and sockets. A socket has the outcomes of the reads after `read_until`, and the
-- socket that they leave.
pub record Network (A E S : Type 0) : Type 0 where
  pub from_string : Bytes → Option A
  pub is_v4 : A → Bool
  pub to_text : A → Bytes
  -- Whether the query is for IPv4, the host and the service.
  pub resolve : Bool → Bytes → Bytes → Option (List E)
  pub connect : List E → Option S
  pub write : S → Bytes → Option S
  pub read_until : S → Bytes → Option (Bytes × S)
  pub reads : S → List (Bytes × ErrorCode)
  pub spent : S → S
  pub close : S → S

-- What ends a program by an exception.
pub data Fault : Type 0 where
  bad_method : Bytes → Fault
  bad_address unresolved unconnected unwritten headless : Fault
  failed_read : ErrorCode → Fault

-- `stuck` is a read that does not return.
pub data Attempt (R : Type 0) : Type 0 where
  got : R → Attempt R
  threw : Fault → Attempt R
  stuck : Attempt R

infixl 5 ◌>>=◌
abbrev pub ◌>>=◌ : {R T : Type 0} → Attempt R → (R → Attempt T) → Attempt T
got r >>= f = f r
threw e >>= f = threw e
stuck >>= f = stuck

abbrev pub attempt : {R : Type 0} → Fault → Option R → Attempt R
attempt fault none = threw fault
attempt fault (some r) = got r

abbrev pub requesting : Outcome Bytes → Attempt Bytes
requesting (ok text) = got text
requesting (invalid_argument what) = threw (bad_method what)

-- `if (!restinio::error_is_eof(error)) throw`.
abbrev pub parsed : {P : Type 0} → Option (Exchange P) → Attempt (Exchange P)
parsed none = stuck
parsed (some e) = elim (e.ending) [ finished ↦ got e | read_error ec ↦ threw (failed_read ec) ]

abbrev pub collected : Option Result → Attempt Bytes
collected none = stuck
collected (some (returned text)) = got text
collected (some (thrown ec)) = threw (failed_read ec)

-- The status that `main` returns, and the response where there is one.
pub record Exit (R : Type 0) : Type 0 where
  pub code : ℕ
  pub response : Option R

module _ {A E S : Type 0} (net : Network A E S) where
  -- `do_with_socket` of client.cpp: the result of the lambda, and the socket that is closed behind it.
  unfoldable pub do_with_socket : {R : Type 0} → (S → Attempt (R × S)) → Bytes → ℕ → Attempt (R × S)
  do_with_socket lambda ip port = do
    addr ← attempt bad_address (net.from_string ip)
    iterator ← attempt unresolved (net.resolve (net.is_v4 addr) (net.to_text addr) (decimal port))
    socket ← attempt unconnected (net.connect iterator)
    (result, after) ← lambda socket
    got (result, net.close after)

  -- `do_with_socket` of client_custom_http_methods.cpp, for IPv4 only.
  unfoldable pub do_with_custom_socket :
      {R : Type 0} → (S → Attempt (R × S)) → Bytes → ℕ → Attempt (R × S)
  do_with_custom_socket lambda addr port = do
    iterator ← attempt unresolved (net.resolve true addr (decimal port))
    socket ← attempt unconnected (net.connect iterator)
    (result, after) ← lambda socket
    got (result, net.close after)

  -- The lambda of `do_request`.
  unfoldable pub exchange : {P : Type 0} → Parser P → P → Bytes → S → Attempt (Exchange P × S)
  exchange parser p request socket = do
    sent ← attempt unwritten (net.write socket request)
    (until, rest) ← attempt headless (net.read_until sent (crlf ++ crlf))
    e ← parsed (do_request parser until (net.reads rest) p)
    got (e, net.spent rest)

  -- The lambda of the other `do_request`.
  unfoldable pub custom_exchange : Bytes → S → Attempt (Bytes × S)
  custom_exchange request socket = do
    sent ← attempt unwritten (net.write socket request)
    (until, rest) ← attempt headless (net.read_until sent (crlf ++ crlf))
    result ← collected (do_custom_request until (net.reads rest))
    got (result, net.spent rest)

  -- `main` of client.cpp, on the arguments behind the program's name.
  unfoldable pub program :
      {M P : Type 0} → Restinio M → Parser P → P → List Bytes → Attempt (Exit (Exchange P))
  unfolding do_with_socket exchange
  program lib parser p (method_str ∷ addr ∷ port_text ∷ target ∷ args) = do
    request ← requesting (request_of lib method_str addr port_text target (body_of lib args))
    (e, closed) ← do_with_socket (exchange parser p request) addr (port_of port_text)
    got (record { code = 0; response = some e })
  program lib parser p few = got (record { code = 1; response = none })

  -- `main` of client_custom_http_methods.cpp. The string is the one that `do_request` returns.
  unfoldable pub custom_program :
      {M : Type 0} → Restinio M → Numbers → StandardMethods → List Bytes → Attempt (Exit Bytes)
  unfolding do_with_custom_socket custom_exchange
  custom_program lib ids std (method_str ∷ addr ∷ port_text ∷ target ∷ args) = do
    request ←
        requesting
          (custom_request_of lib ids std method_str addr port_text target (body_of lib args))
    (text, closed) ← do_with_custom_socket (custom_exchange request) addr (port_of port_text)
    got (record { code = 0; response = some text })
  custom_program lib ids std few = got (record { code = 1; response = none })
