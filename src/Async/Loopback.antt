-- ===== src/Async/Loopback.antt =====
-- client.cpp and server.cpp of cpp/async/nonblocking at the two ends of a TCP connection.
use smoll.Base.{
  ℕ, ◌≡◌, sym, ap, ◌∙◌, subst, List, [], ◌++◌, map, take, drop, take-append-drop, get_elem?, some,
  All, append_assoc, inl, inr,
}
use smoll.Async.Net.{Asio, IsAsio}
use smoll.Async.Client
use smoll.Async.Client.{new_client, send_all}
use smoll.Async.Client.Once.{IsUntouched, run-sends_once}
use smoll.Async.Server
use smoll.Async.Server.{new_server}
use smoll.Async.Server.Echo.{IsFreshEvent, run-echoes}

-- A list that begins another.
pub record IsPrefix (a b : List ℕ) : Type 0 where
  pub rest : List ℕ
  pub whole : a ++ rest ≡ b

pub IsPrefix-trans : {a b c : List ℕ} → IsPrefix a b → IsPrefix b c → IsPrefix a c
IsPrefix-trans {a} {b} {c} p q = record {
  rest = p.rest ++ q.rest;
  whole = sym (append_assoc a p.rest q.rest) ∙ ap (λ l. l ++ q.rest) p.whole ∙ q.whole;
}

empty-IsPrefix : {a b : List ℕ} → a ≡ [] → IsPrefix a b
empty-IsPrefix {a} {b} e = record { rest = b; whole = ap (λ l. l ++ b) e }

take-IsPrefix : (n : ℕ) (r : List ℕ) → IsPrefix (take n r) r
take-IsPrefix n r = record { rest = drop n r; whole = take-append-drop n r }

module _ {S T : Type 0} (client_net : Asio S) (server_net : Asio T) where
  -- TCP delivers what was sent, in order, and invents nothing: each end has taken the front of what
  -- the other has sent.
  pub record IsLinked (s : S) (t : T) : Type 0 where
    pub to_server : IsPrefix (server_net.taken t) (client_net.sent s)
    pub to_client : IsPrefix (client_net.taken s) (server_net.sent t)

  -- For every run of the client, with any requests on untouched sockets, and every run of the server,
  -- on fresh ones, both with any errors: where a connection of the one is linked to a connection of
  -- the other, all that the client has read on it is the front of the request that it was made for.
  pub echo_of_request :
      (client_law : IsAsio client_net) (server_law : IsAsio server_net) (ps : List (S × List ℕ))
      (client_events : List Client.Event) (server_events : List (Server.Event T)) (i j : ℕ)
      (c : Client.Connection S) (d : Server.Connection T)
      → All (IsUntouched client_net) ps
      → All (IsFreshEvent server_net) server_events
      → get_elem? (Client.run client_net (send_all ps (new_client S)) client_events).connections i
        ≡ some c
      → get_elem? (Server.run server_net (new_server server_net) server_events).connections j
        ≡ some d
      → IsLinked c.socket d.socket
      → (r : List ℕ) × (get_elem? (map (λ p. p.1) ps) i ≡ some r)
        × IsPrefix (client_net.taken c.socket) r
  echo_of_request client_law server_law ps client_events server_events i j c d untouched fresh found
        reached link =
      let (r, asked, outcome) =
        run-sends_once client_net client_law ps client_events i c untouched found in
      let (echoed, drained) = run-echoes server_net server_law server_events j d fresh reached in
      let back : IsPrefix (client_net.taken c.socket) (client_net.sent c.socket) =
        IsPrefix-trans link.to_client (
          IsPrefix-trans (record { rest = d.session.write_buffer; whole = sym echoed })
            link.to_server) in
      (
        r,
        asked,
        elim outcome [
          | inl (sent, taken) ↦ empty-IsPrefix taken
          | inr (n, positive, sent) ↦
              IsPrefix-trans back (subst (λ l. IsPrefix l r) (sym sent) (take-IsPrefix n r))
        ],
      )
