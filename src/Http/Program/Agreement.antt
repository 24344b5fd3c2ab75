-- ===== src/Http/Program/Agreement.antt =====
-- The two clients say the same to the server, and make the same of what it answers.
use smoll.Base.{
  ℕ, ◌≡◌, ◌≢◌, refl, ap, ◌∙◌, List, [], ◌∷◌, ◌++◌, true, Option, none, some, Bytes, codes, decimal,
  same_text, same_text_ne, Bool-cases, inl, inr,
}
use smoll.Async.Net.{ErrorCode, is_eof}
use smoll.Http.Request.{
  Field, ConnectionHeader, create_http_request, Outcome, ok, invalid_argument, crlf, keep_alive,
}
use smoll.Http.Arguments.{Restinio, port_of, request_of, method_of, header_fields, body_of}
use smoll.Http.Methods.{MethodId, Numbers, StandardMethods, custom_method_of}
use smoll.Http.Methods.Streamed.{
  create_custom_request, create_custom_request-same, custom_request_of,
}
use smoll.Http.Exchange.{
  Parser, Exchange, finished, read_loop, do_request, collect_loop, do_custom_request,
}
use smoll.Http.Exchange.Whole.{IsIncremental, fed, execute-fed_text}
use smoll.Http.Request.Lines.{append-ne-nil}
use smoll.Http.Program.{
  Network, Fault, unresolved, unconnected, unwritten, headless, failed_read, bad_method, Attempt,
  got, threw, stuck, ◌>>=◌, attempt, requesting, parsed, collected, Exit, do_with_socket,
  do_with_custom_socket, exchange, custom_exchange, program, custom_program,
}

-- Two attempts end alike: in the same exception, in a read that does not return, or in results that
-- are related.
pub data Agree {X Y : Type 0} (R : X → Y → Type 0) : Attempt X → Attempt Y → Type 0 where
  both_got : {x : X} {y : Y} → R x y → Agree R (got x) (got y)
  both_threw : (fault : Fault) → Agree R (threw fault) (threw fault)
  both_stuck : Agree R stuck stuck

bind-Agree :
    {X Y Z W : Type 0} (R : X → Y → Type 0) (Q : Z → W → Type 0) {a : Attempt X} {b : Attempt Y}
    (f : X → Attempt Z) (g : Y → Attempt W)
    → Agree R a b
    → ((x : X) (y : Y) → R x y → Agree Q (f x) (g y))
    → Agree Q (a >>= f) (b >>= g)
bind-Agree R Q f g (both_got {x} {y} r) h = h x y r
bind-Agree R Q f g (both_threw fault) h = both_threw fault
bind-Agree R Q f g both_stuck h = both_stuck

-- The same call of both programs.
attempt-Agree :
    {X Z W : Type 0} (Q : Z → W → Type 0) (fault : Fault) (o : Option X) (f : X → Attempt Z)
    (g : X → Attempt W)
    → ((x : X) → Agree Q (f x) (g x))
    → Agree Q (attempt fault o >>= f) (attempt fault o >>= g)
attempt-Agree Q fault none f g h = both_threw fault
attempt-Agree Q fault (some x) f g h = h x

requesting-Agree :
    {Z W : Type 0} (Q : Z → W → Type 0) (o : Outcome Bytes) (f : Bytes → Attempt Z)
    (g : Bytes → Attempt W)
    → ((text : Bytes) → Agree Q (f text) (g text))
    → Agree Q (requesting o >>= f) (requesting o >>= g)
requesting-Agree Q (ok text) f g h = h text
requesting-Agree Q (invalid_argument what) f g h = both_threw (bad_method what)

module _ {P : Type 0} (parser : Parser P) (p : P) where
  -- The exchange ended well, and its parser has been fed the text.
  pub IsFed : Bytes → Exchange P → Type 0
  IsFed text e = (e.parser ≡ fed parser p text) × (e.ending ≡ finished)

  loops-Agree :
      (law : IsIncremental parser) (buffer : Bytes) (reads : List (Bytes × ErrorCode))
      (sout : Bytes) (n : ℕ)
      → Agree IsFed
          (collected (collect_loop buffer reads sout))
          (parsed (read_loop parser buffer reads (fed parser p sout) n))
  unfolding collect_loop read_loop IsFed
  loops-Agree law buffer [] sout n = both_stuck
  loops-Agree law buffer (([], ec) ∷ reads) sout n = elim (Bool-cases (is_eof ec)) [
    | inl end ↦ rw (end, collect_loop) (both_got (refl, refl))
    | inr other ↦ rw (other, collect_loop) (both_threw (failed_read ec))
  ]
  loops-Agree law buffer ((c ∷ cs, ec) ∷ reads) sout n =
      let more = buffer ++ c ∷ cs in
      rw (execute-fed_text parser p sout more law (append-ne-nil buffer (c ∷ cs) (cc)))
        (loops-Agree law [] reads (sout ++ more) _)

-- A request depends on the text of its method only.
create_http_request-method :
    {M N : Type 0} (f : M → Bytes) (g : N → Bytes) (m : M) (n : N) (target : Bytes)
    (major minor : ℕ) (fs : List Field) (connection : ConnectionHeader) (body : Bytes)
    → f m ≡ g n
    → create_http_request f
        (record { method = m; target = target; major = major; minor = minor })
        fs
        connection
        body
      ≡ create_http_request g
          (record { method = n; target = target; major = major; minor = minor })
          fs
          connection
          body
unfolding create_http_request
create_http_request-method f g m n target major minor fs connection body e =
    rw (e, create_http_request) refl

-- The names of the two methods are the same in both tables.
pub record SameNames {M : Type 0} (lib : Restinio M) (std : StandardMethods) : Type 0 where
  pub get_name : std.http_method_get.name ≡ lib.method_to_string lib.http_get
  pub post_name : std.http_method_post.name ≡ lib.method_to_string lib.http_post

same_request :
    {M : Type 0} (lib : Restinio M) (ids : Numbers) (std : StandardMethods)
    (method_str addr port_text target body : Bytes)
    → SameNames lib std
    → method_str ≢ codes "listen"
    → custom_request_of lib ids std method_str addr port_text target body
      ≡ request_of lib method_str addr port_text target body
unfolding custom_request_of request_of custom_method_of method_of
same_request {M} lib ids std method_str addr port_text target body same h =
    elim (Bool-cases (same_text method_str (codes "get"))) [
      | inl get ↦ rw (get, custom_request_of, request_of) (named _ _ same.get_name)
      | inr not_get ↦ elim (Bool-cases (same_text method_str (codes "post"))) [
        | inl post ↦ rw (not_get, post, custom_request_of, request_of) (named _ _ same.post_name)
        | inr not_post ↦ rw (
          not_get,
          not_post,
          same_text_ne method_str (codes "listen") h,
          custom_request_of,
          request_of,
        )
      ]
    ]
  where
    named :
        (m : MethodId) (n : M)
        → m.name ≡ lib.method_to_string n
        → create_custom_request
            (record { method = m; target = target; major = lib.major; minor = lib.minor })
            (header_fields lib addr (port_of port_text))
            keep_alive
            body
          ≡ create_http_request lib.method_to_string
              (record { method = n; target = target; major = lib.major; minor = lib.minor })
              (header_fields lib addr (port_of port_text))
              keep_alive
              body
    named m n e =
        create_custom_request-same _ _ _ _
        ∙ create_http_request-method (λ m. m.name) lib.method_to_string m n target lib.major
            lib.minor (header_fields lib addr (port_of port_text)) keep_alive body e

-- The text of an IPv4 address, as asio writes it.
pub record IsIpv4Text {A E S : Type 0} (net : Network A E S) (addr : Bytes) (a : A) : Type 0 where
  pub is_address : net.from_string addr ≡ some a
  pub is_four : net.is_v4 a ≡ true
  pub is_canonical : net.to_text a ≡ addr

module _ {A E S P : Type 0} (net : Network A E S) (parser : Parser P) (p : P)
    (law : IsIncremental parser) where
  -- The results of the two lambdas.
  abbrev IsFedOn : Bytes × S → Exchange P × S → Type 0
  IsFedOn r e = IsFed parser p r.0 e.0 × (r.1 ≡ e.1)

  exchanges-Agree :
      (request : Bytes) (socket : S)
      → Agree IsFedOn (custom_exchange net request socket) (exchange net parser p request socket)
  unfolding custom_exchange exchange do_custom_request do_request
  exchanges-Agree request socket =
      attempt-Agree IsFedOn unwritten (net.write socket request) _ _ (λ sent.
        attempt-Agree IsFedOn headless (net.read_until sent (crlf ++ crlf)) _ _ (λ r.
          bind-Agree (IsFed parser p) IsFedOn _ _
            (loops-Agree parser p law r.0 (net.reads r.1) [] 0) (λ text e h. both_got (h, refl))))

  -- Where the address is one of IPv4, the two ways to connect are the same.
  sockets-Agree :
      (addr : Bytes) (port : ℕ) (a : A) (f : S → Attempt (Bytes × S))
      (g : S → Attempt (Exchange P × S))
      → IsIpv4Text net addr a
      → ((socket : S) → Agree IsFedOn (f socket) (g socket))
      → Agree IsFedOn (do_with_custom_socket net f addr port) (do_with_socket net g addr port)
  unfolding do_with_custom_socket do_with_socket
  sockets-Agree addr port a f g four h =
      rw (four.is_address, do_with_socket)
        (rw (four.is_four, four.is_canonical)
          (attempt-Agree IsFedOn unresolved (net.resolve true addr (decimal port)) _ _ (λ ends.
            attempt-Agree IsFedOn unconnected (net.connect ends) _ _ (λ socket.
              bind-Agree IsFedOn IsFedOn _ _ (h socket)
                (λ r e h. both_got (h.0, ap net.close h.1))))))

  -- Both programs end with status 0, and the parser of one has been fed the text of the other.
  pub IsSameExit : Exit Bytes → Exit (Exchange P) → Type 0
  IsSameExit x y =
      (x.code ≡ y.code)
      × (text : Bytes) × (e : Exchange P) × (x.response ≡ some text)
      × (y.response ≡ some e)
      × IsFed parser p text e

  -- For every network, every arguments of which the method is not "listen" and the address is one of
  -- IPv4 in asio's spelling, and every incremental parser: where the two tables name the methods get
  -- and post alike, the two clients end in the same exception, or both in a read that does not return,
  -- or both with the same status; and the parser of the one has then been fed exactly the text that
  -- the other has collected, whatever pieces the response came in.
  pub programs-Agree :
      {M : Type 0} (lib : Restinio M) (ids : Numbers) (std : StandardMethods)
      (method_str addr port_text target : Bytes) (args : List Bytes) (a : A)
      → SameNames lib std
      → method_str ≢ codes "listen"
      → IsIpv4Text net addr a
      → Agree IsSameExit
          (custom_program net lib ids std (method_str ∷ addr ∷ port_text ∷ target ∷ args))
          (program net lib parser p (method_str ∷ addr ∷ port_text ∷ target ∷ args))
  unfolding custom_program program IsSameExit
  programs-Agree lib ids std method_str addr port_text target args a same h four =
      rw (same_request lib ids std method_str addr port_text target (body_of lib args) same h) (
        requesting-Agree IsSameExit
          (request_of lib method_str addr port_text target (body_of lib args)) _ _
          (λ text.
            bind-Agree IsFedOn IsSameExit _ _
              (sockets-Agree addr (port_of port_text) a _ _ four (exchanges-Agree text))
              (λ r e h. both_got (refl, r.0, e.0, refl, refl, h.0))))
