-- ===== src/Http/Program/Listening.antt =====
-- From the argument "listen" of client_custom_http_methods.cpp to the response.
use smoll.Base.{
  ◌≡◌, refl, ap, ◌∙◌, List, [], ◌∷◌, ◌++◌, Option, some, Bytes, codes, decimal, Lacks, All,
}
use smoll.Async.Net.{ErrorCode, eof}
use smoll.Http.Request.Reader.{Message, read_message, OneLine}
use smoll.Http.Request.Lines.{version_text, connection_field, length_fields, sent_body}
use smoll.Http.Arguments.{Restinio, port_of, header_fields, body_of}
use smoll.Http.Arguments.Sent.{IsPlain}
use smoll.Http.Exchange.{Parser}
use smoll.Http.Exchange.Whole.{IsIncremental, IsPiece, taken_of, response_parsed}
use smoll.Http.Program.{Network, got}
use smoll.Base.{true, false}
use smoll.Http.Request.{keep_alive, connection_text}
use smoll.Http.Arguments.Sent.{header_fields-clean}
use smoll.Http.Methods.{Numbers, StandardMethods}
use smoll.Http.Methods.Streamed.{custom_request_of}
use smoll.Http.Methods.Listen.{listen_header, listen_message}
use smoll.Http.Program.{custom_program, custom_exchange, do_with_custom_socket}
use smoll.Http.Program.Response.{IsServer}

-- The text is the same whatever parser is beside it.
abbrev no_parser : Parser Bytes
no_parser = record { execute = λ p s. p; is_failed = λ p. false }

no_parser-IsIncremental : IsIncremental no_parser
no_parser-IsIncremental = record { execute_append = λ p a b h k. refl }

module _ {A E S M : Type 0} (net : Network A E S) (lib : Restinio M) (ids : Numbers)
    (std : StandardMethods) where
  abbrev pub listen_intended : Bytes → Bytes → Bytes → Bytes → Message
  listen_intended addr port_text target body = record {
    method = codes "LISTEN";
    target = target;
    version = version_text (listen_header ids target lib.major lib.minor);
    fields =
        header_fields lib addr (port_of port_text)
        ++ connection_field (codes "keep-alive") ∷ length_fields body;
    rest = sent_body body;
  }

  custom_exchange-responds :
      (socket : S) (serve : Option Message → Bytes × List (Bytes × ErrorCode)) (text : Bytes)
      (until : Bytes) (pieces later : List (Bytes × ErrorCode))
      → (server : IsServer net socket serve)
      → serve (read_message text) ≡ (until, pieces ++ ([], eof) ∷ later)
      → All IsPiece pieces
      → custom_exchange net text socket
        ≡ got (taken_of until pieces, net.spent (server.behind text))
  unfolding custom_exchange
  custom_exchange-responds socket serve text until pieces later server served whole =
      let e =
        (response_parsed no_parser until pieces later eof [] no_parser-IsIncremental whole).1 in
      rw (server.takes text, custom_exchange)
        (rw (server.heads text, server.sends text, served, e) refl)

  -- For a host that resolves as an IPv4 one and connects, plain texts, and a server that answers by the
  -- message it reads and ends its stream: the argument "listen" makes the server read a message of
  -- method LISTEN with the target, the fields and the body that the arguments mean. The program returns
  -- 0, with the whole response to that message where a read behind the one for the head brings
  -- something, and with an empty string where none does.
  pub listen-responds :
      (addr port_text target : Bytes) (args : List Bytes) (ends : List E) (socket : S)
      (serve : Option Message → Bytes × List (Bytes × ErrorCode)) (until : Bytes)
      (pieces later : List (Bytes × ErrorCode))
      → IsPlain lib
      → OneLine addr
      → OneLine target
      → Lacks b' ' target
      → net.resolve true addr (decimal (port_of port_text)) ≡ some ends
      → net.connect ends ≡ some socket
      → IsServer net socket serve
      → serve (some (listen_intended addr port_text target (body_of lib args)))
        ≡ (until, pieces ++ ([], eof) ∷ later)
      → All IsPiece pieces
      → custom_program net lib ids std (codes "listen" ∷ addr ∷ port_text ∷ target ∷ args)
        ≡ got (record { code = 0; response = some (taken_of until pieces) })
  unfolding custom_program do_with_custom_socket custom_request_of
  listen-responds addr port_text target args ends socket serve until pieces later plain one_addr
        one_target lacks resolved connected server served whole =
      let (text, made, read) =
        listen_message ids std target lib.major lib.minor
          (header_fields lib addr (port_of port_text)) keep_alive (body_of lib args)
          (codes "keep-alive") one_target lacks
          (header_fields-clean lib addr (port_of port_text) plain one_addr)
          (unfold connection_text in refl) in
      let answered : serve (read_message text) ≡ (until, pieces ++ ([], eof) ∷ later) =
        ap serve read ∙ served in
      let e = custom_exchange-responds socket serve text until pieces later server answered whole in
      rw (made, resolved, connected, e, custom_program, do_with_custom_socket) refl
