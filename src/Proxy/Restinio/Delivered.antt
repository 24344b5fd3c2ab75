-- ===== src/Proxy/Restinio/Delivered.antt =====
-- All of restinio/client.cpp against the proxy: from the arguments of a get to the values.
mod Tests
use smoll.Base.{
  ℕ, ◌≡◌, refl, ap, ◌∙◌, List, [], ◌∷◌, ◌++◌, Option, none, some, Bytes, codes, decimal, ◌⊎◌, inl,
  inr, All, arith,
}
use smoll.Async.Net.{ErrorCode, eof}
use smoll.Http.Request.Reader.{Message, OneLine}
use smoll.Http.Arguments.{Restinio, port_of}
use smoll.Http.Arguments.Sent.{IsPlain, intended}
use smoll.Http.Exchange.{Parser, finished}
use smoll.Http.Exchange.Whole.{IsIncremental, IsPiece, bytes_of, fed, fed-nonempty, taken_of}
use smoll.Http.Program.{Network, got, program}
use smoll.Http.Program.Response.{IsServer, program-responds}
use smoll.Proxy.Restinio.{Dht, Server, Event, asks_get, step, run}
use smoll.Proxy.Restinio.Contents.{value_lines, streamed}
use smoll.Proxy.Restinio.Lifecycle.{Method, method_get, IsExpress}
use smoll.Proxy.Restinio.Serving.{serve, serve-get}
use smoll.Proxy.Restinio.Streams.{found, run-streamed}
use smoll.Proxy.Restinio.Received.{IsSegment, IsRestinioServer, IsStandard, received-get, get-known}

-- How a chunked response of a body goes over the wire: what is there when its head is, and the reads
-- behind that, each of which brings something, before the connection is closed. There is no such read
-- where all came with the head. http_parser finds the body in the whole again.
pub record IsDelivery {P : Type 0} (parser : Parser P) (p : P) (content : P → Bytes)
    (frame : Bytes → Bytes × List (Bytes × ErrorCode)) : Type 0 where
  pub until : Bytes → Bytes
  pub pieces : Bytes → List (Bytes × ErrorCode)
  pub framed : (body : Bytes) → frame body ≡ (until body, pieces body ++ ([], eof) ∷ [])
  pub not_empty : (body : Bytes) → All IsPiece (pieces body)
  pub finds :
      (body : Bytes) → content (parser.execute p (until body ++ bytes_of (pieces body))) ≡ body

content-fed :
    {P : Type 0} (parser : Parser P) (p : P) (content : P → Bytes) (until body : Bytes)
    (pieces : List (Bytes × ErrorCode))
    → All IsPiece pieces
    → content (parser.execute p (until ++ bytes_of pieces)) ≡ body
    → ((pieces ≡ []) × (fed parser p (taken_of until pieces) ≡ p))
      ⊎ (content (fed parser p (taken_of until pieces)) ≡ body)
content-fed parser p content until body [] h finds = inl (refl, refl)
content-fed parser p content until body (([], e) ∷ pieces) h finds = absurd (h.0 refl)
content-fed parser p content until body ((c ∷ cs, e) ∷ pieces) h finds =
    inr (ap content (fed-nonempty parser p until c (cs ++ bytes_of pieces)) ∙ finds)

module _ {H V J N : Type 0} (dht : Dht H V J N) (matches : Bytes → Bytes → Option Bytes)
    (receive : Message → Option (Method × Bytes × Bytes))
    (frame : Bytes → Bytes × List (Bytes × ErrorCode)) where
  -- The proxy in a state answers a request, and `later` happens behind it.
  unfoldable pub answer :
      Server H V N
      → ℕ
      → Bytes
      → N
      → List (Event V N)
      → Option Message
      → Bytes × List (Bytes × ErrorCode)
  answer s id ip current later none = ([], [])
  answer s id ip current later (some m) = elim (receive m) [
    | none ↦ ([], [])
    | some (method, path, body) ↦
        let asked = serve dht matches s (record {
          id = id;
          method = method;
          path = path;
          body = body;
          ip = ip;
          current = current;
        }) in
        frame (streamed dht id (asked.1 ++ (run dht asked.0 later).1))
  ]

  answer-get :
      (law : IsExpress matches) (m : Message) (c : ℕ) (text : Bytes) (s : Server H V N) (id : ℕ)
      (ip : Bytes) (current : N) (later : List (Event V N))
      → IsSegment (c ∷ text)
      → receive m ≡ some (method_get, b'/' ∷ c ∷ text, [])
      → answer s id ip current later (some m)
        ≡ frame (value_lines dht (found dht id s (asks_get id (c ∷ text) ∷ later)))
  unfolding answer run
  answer-get law m c text s id ip current later seg received =
      rw (received, answer, serve-get dht matches id c text [] ip current s law seg.no_slash)
        (ap frame (run-streamed dht id (asks_get id (c ∷ text) ∷ later) s))

  -- Take restinio's server, router and texts as documented, a response that http_parser reads as its
  -- framing means, an address that resolves and connects, and a segment that is not empty. Where the
  -- proxy stands behind the socket in any state, and whatever happens to it behind the request until
  -- the connection is closed: client.cpp run with "get", the address, the port and the segment behind a
  -- slash returns 0. What its parser has found then are the values that the node found for this request,
  -- one JSON line each, in that order; unless no read behind the one for the head brings anything, where
  -- the parser is as it was.
  pub program_gets :
      {A E S P M : Type 0} (net : Network A E S) (lib : Restinio M) (parser : Parser P) (p : P)
      (content : P → Bytes) (law : IsExpress matches) (restinio : IsRestinioServer receive)
      (plain : IsPlain lib) (standard : IsStandard lib)
      (delivery : IsDelivery parser p content frame) (addr port_text : Bytes) (c : ℕ)
      (text ip : Bytes) (a : A) (ends : List E) (socket : S) (s : Server H V N) (id : ℕ)
      (current : N) (later : List (Event V N))
      → OneLine addr
      → IsSegment (c ∷ text)
      → net.from_string addr ≡ some a
      → net.resolve (net.is_v4 a) (net.to_text a) (decimal (port_of port_text)) ≡ some ends
      → net.connect ends ≡ some socket
      → IsServer net socket (answer s id ip current later)
      → IsIncremental parser
      → (n : ℕ) × (q : P) × (program net lib parser p
            (codes "get" ∷ addr ∷ port_text ∷ (b'/' ∷ c ∷ text) ∷ [])
          ≡ got (record {
            code = 0;
            response = some (record { parser = q; complaints = n; ending = finished });
          }))
        × (let body = value_lines dht (found dht id s (asks_get id (c ∷ text) ∷ later)) in
            ((delivery.pieces body ≡ []) × (q ≡ p)) ⊎ (content q ≡ body))
  program_gets net lib parser p content law restinio plain standard delivery addr port_text c text
        ip a ends socket s id current later one_addr seg address resolved connected server
        incremental =
      let target = b'/' ∷ c ∷ text in
      let body = value_lines dht (found dht id s (asks_get id (c ∷ text) ∷ later)) in
      let message = intended lib addr port_text target [] lib.http_get in
      let served =
        answer-get law message c text s id ip current later seg
          (received-get lib standard addr port_text receive restinio (c ∷ text) seg) in
      let (n, ran) =
        program-responds net lib parser p (codes "get") addr port_text target [] lib.http_get a ends
          socket (answer s id ip current later) (delivery.until body) (delivery.pieces body) []
          plain one_addr (omega arith, seg.one_line) (omega arith, seg.no_space)
          (get-known lib standard addr port_text) address resolved connected server incremental
          (served ∙ delivery.framed body) (delivery.not_empty body) in
      (
        n,
        fed parser p (taken_of (delivery.until body) (delivery.pieces body)),
        ran,
        content-fed parser p content (delivery.until body) body (delivery.pieces body)
            (delivery.not_empty body) (delivery.finds body),
      )
