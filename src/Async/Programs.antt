-- ===== src/Async/Programs.antt =====
-- `main` of server.cpp and of client.cpp in cpp/async/nonblocking, from the arguments to the loop. Whether
-- the acceptor binds its port, whether a text is an address, and the new sockets are the environment's.
mod Tests
use smoll.Base.{
  ℕ, ◌≡◌, refl, sym, ap, ◌∙◌, subst, List, [], ◌∷◌, ◌++◌, Bool, true, false, Bytes, codes, map,
  get_elem?, All-get_elem?, some, none, All, if◌then◌else◌, Bool-cases, inl, inr,
}
use smoll.Http.Request.{crlf}
use smoll.Http.Arguments.{port_of}
use smoll.Async.Net.{Asio, IsAsio}
use smoll.Async.Client
use smoll.Async.Client.{new_client, send_all}
use smoll.Async.Client.Once.{IsUntouched}
use smoll.Async.Server
use smoll.Async.Server.{new_server}
use smoll.Async.Server.Echo.{IsFreshEvent}
use smoll.Async.Loopback.{IsPrefix, IsLinked, echo_of_request}

-- How a `main` ends: the usage message, an exception before the loop, or its loop.
pub data Ended (X : Type 0) : Type 0 where
  usage caught : Ended X
  looped : X → Ended X

-- The text that `req` holds.
abbrev pub request_text : Bytes
request_text =
    codes "GET / HTTP/1.1"
    ++ (crlf
        ++ (codes "Host: 127.0.0.1:8080"
            ++ (crlf
                ++ (codes "Accept: */*"
                    ++ (crlf ++ (codes "Connection: keep-alive" ++ (crlf ++ crlf)))))))

unfoldable pub server_main :
    {T : Type 0}
    → Asio T
    → (ℕ → Bool)
    → List (Server.Event T)
    → List Bytes
    → Ended (Server.Server T)
server_main net binds events (port ∷ []) =
    if binds (port_of port) then looped (Server.run net (new_server net) events) else caught
server_main net binds events args = usage

-- The client sends its request three times, each on a socket of its own.
abbrev pub three_requests : {S : Type 0} → S → S → S → List (S × List ℕ)
three_requests a b c = (a, request_text) ∷ (b, request_text) ∷ (c, request_text) ∷ []

unfoldable pub client_main :
    {S : Type 0}
    → Asio S
    → (Bytes → Bool)
    → S
    → S
    → S
    → List Client.Event
    → List Bytes
    → Ended (Client.Client S)
client_main {S} net is_address a b c events (ip ∷ port ∷ []) =
    if is_address ip
    then looped (Client.run net (send_all (three_requests a b c) (new_client S)) events)
    else caught
client_main net is_address a b c events args = usage

looped_in : {X : Type 0} → X → Ended X → X
looped_in x (looped y) = y
looped_in x e = x

-- A loop that was come to is the one behind the test.
behind_test :
    {X : Type 0} (b : Bool) (x y : X) → (if b then looped x else caught) ≡ looped y → x ≡ y
unfolding looped_in
behind_test true x y e = ap (looped_in x) e
behind_test false x y e = cc

-- The request at any place is the same one.
three_the_same :
    (i : ℕ) (r : List ℕ)
    → get_elem? (request_text ∷ request_text ∷ request_text ∷ []) i ≡ some r
    → r ≡ request_text
three_the_same i r e =
    All-get_elem? (λ l. l ≡ request_text) (request_text ∷ request_text ∷ request_text ∷ []) i r
      (refl, (refl, (refl, tt))) e

module _ {S T : Type 0} (client_net : Asio S) (server_net : Asio T) where
  -- From the arguments of both programs, where asio keeps its contract, the client's sockets are
  -- untouched and the server's are fresh: for every run of the two, with any errors, that comes to both
  -- loops, what the client has read on a connection that is linked to one of the server is the front of
  -- the text of its request.
  pub programs_echo :
      (client_law : IsAsio client_net) (server_law : IsAsio server_net) (is_address : Bytes → Bool)
      (binds : ℕ → Bool) (s1 s2 s3 : S) (client_events : List Client.Event)
      (server_events : List (Server.Event T)) (ip client_port server_port : Bytes)
      (cl : Client.Client S) (sv : Server.Server T) (i j : ℕ) (c : Client.Connection S)
      (d : Server.Connection T)
      → All (IsUntouched client_net) (three_requests s1 s2 s3)
      → All (IsFreshEvent server_net) server_events
      → client_main client_net is_address s1 s2 s3 client_events (ip ∷ client_port ∷ []) ≡ looped cl
      → server_main server_net binds server_events (server_port ∷ []) ≡ looped sv
      → get_elem? cl.connections i ≡ some c
      → get_elem? sv.connections j ≡ some d
      → IsLinked client_net server_net c.socket d.socket
      → IsPrefix (client_net.taken c.socket) request_text
  unfolding client_main server_main
  programs_echo client_law server_law is_address binds s1 s2 s3 client_events server_events ip
        client_port server_port cl sv i j c d untouched fresh client_ran server_ran found reached
        link =
      let same_client = behind_test (is_address ip) _ cl client_ran in
      let same_server = behind_test (binds (port_of server_port)) _ sv server_ran in
      let (r, asked, front) =
        echo_of_request client_net server_net client_law server_law (three_requests s1 s2 s3)
          client_events server_events i j c d untouched fresh
          (ap (λ (l : Client.Client S). get_elem? l.connections i) same_client ∙ found)
          (ap (λ (l : Server.Server T). get_elem? l.connections j) same_server ∙ reached) link in
      subst (λ l. IsPrefix (client_net.taken c.socket) l) (three_the_same i r asked) front
