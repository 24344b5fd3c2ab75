-- ===== src/Http/Program/Response.antt =====
-- From the arguments of client.cpp to the response, through a server that reads the request.
use smoll.Base.{
  ℕ, ◌≡◌, refl, ap, ◌∙◌, List, [], ◌∷◌, ◌++◌, Option, some, Bytes, decimal, Lacks, All,
}
use smoll.Async.Net.{ErrorCode, eof}
use smoll.Http.Request.{Outcome, ok, invalid_argument, crlf}
use smoll.Http.Request.Reader.{Message, read_message, OneLine}
use smoll.Http.Arguments.{
  Restinio, Run, usage, requested, port_of, request_of, method_of, body_of, main,
}
use smoll.Http.Arguments.Sent.{IsPlain, intended, main-message}
use smoll.Http.Exchange.{Parser, finished}
use smoll.Http.Exchange.Whole.{IsIncremental, IsPiece, fed, taken_of, response_parsed}
use smoll.Http.Program.{Network, got, do_with_socket, exchange, program}

-- The server behind a connected socket answers by what it reads in the request, and by nothing else:
-- the bytes of the response up to its head, and the pieces of the rest.
pub record IsServer {A E S : Type 0} (net : Network A E S) (socket : S)
    (serve : Option Message → Bytes × List (Bytes × ErrorCode)) : Type 0 where
  pub after : Bytes → S
  pub behind : Bytes → S
  pub takes : (text : Bytes) → net.write socket text ≡ some (after text)
  pub heads :
      (text : Bytes)
      → net.read_until (after text) (crlf ++ crlf)
        ≡ some ((serve (read_message text)).0, behind text)
  pub sends : (text : Bytes) → net.reads (behind text) ≡ (serve (read_message text)).1

request_in : Run → Outcome Bytes
request_in usage = invalid_argument []
request_in (requested text) = text

module _ {A E S P M : Type 0} (net : Network A E S) (lib : Restinio M) (parser : Parser P)
    (p : P) where
  exchange-responds :
      (socket : S) (serve : Option Message → Bytes × List (Bytes × ErrorCode)) (text : Bytes)
      (until : Bytes) (pieces later : List (Bytes × ErrorCode))
      → (server : IsServer net socket serve) → IsIncremental parser
      → serve (read_message text) ≡ (until, pieces ++ ([], eof) ∷ later)
      → All IsPiece pieces
      → (n : ℕ) × (exchange net parser p text socket
          ≡ got (
            record {
              parser = fed parser p (taken_of until pieces);
              complaints = n;
              ending = finished;
            },
            net.spent (server.behind text),
          ))
  unfolding exchange
  exchange-responds socket serve text until pieces later server law served whole =
      let (n, e) = (response_parsed parser until pieces later eof p law whole).0 in
      (
        n,
        rw (server.takes text, exchange)
            (rw (server.heads text, server.sends text, served, e) refl),
      )

  -- From the arguments to the response: for a method that the program knows, an address that resolves
  -- and connects, plain texts, and a server that answers by the message it reads and ends its stream.
  -- The server reads the message that the arguments mean, and the program returns 0. Where a read behind
  -- the one for the head brings something, the parser has been fed the whole response to that message,
  -- and nothing else. Where none does, because all came with the head, it is not called at all.
  pub program-responds :
      (method_str addr port_text target : Bytes) (args : List Bytes) (method : M) (a : A)
      (ends : List E) (socket : S) (serve : Option Message → Bytes × List (Bytes × ErrorCode))
      (until : Bytes) (pieces later : List (Bytes × ErrorCode))
      → IsPlain lib
      → OneLine addr
      → OneLine target
      → Lacks b' ' target
      → method_of lib method_str ≡ ok method
      → net.from_string addr ≡ some a
      → net.resolve (net.is_v4 a) (net.to_text a) (decimal (port_of port_text)) ≡ some ends
      → net.connect ends ≡ some socket
      → IsServer net socket serve
      → IsIncremental parser
      → serve (some (intended lib addr port_text target (body_of lib args) method))
        ≡ (until, pieces ++ ([], eof) ∷ later)
      → All IsPiece pieces
      → (n : ℕ) × (program net lib parser p (method_str ∷ addr ∷ port_text ∷ target ∷ args)
          ≡ got (record {
            code = 0;
            response = some (record {
              parser = fed parser p (taken_of until pieces);
              complaints = n;
              ending = finished;
            });
          }))
  unfolding program do_with_socket main request_in
  program-responds method_str addr port_text target args method a ends socket serve until pieces
        later plain one_addr one_target lacks known address resolved connected server law served
        whole =
      let (text, made, read) =
        main-message lib method_str addr port_text target args method plain one_addr one_target
          lacks known in
      let requests : request_of lib method_str addr port_text target (body_of lib args) ≡ ok text =
        ap request_in made in
      let answered : serve (read_message text) ≡ (until, pieces ++ ([], eof) ∷ later) =
        ap serve read ∙ served in
      let (n, e) =
        exchange-responds socket serve text until pieces later server law answered whole in
      (n, rw (requests, address, resolved, connected, e, program, do_with_socket) refl)
