-- ===== src/Async/Posting/Connection/Echo.antt =====
-- client2.cpp and server.cpp at the two ends of a connection.
use smoll.Base.{
  ℕ, ◌≡◌, sym, subst, Bool, List, some, All, All-imp, Holds-some, Bytes, c_str, get_elem?,
}
use smoll.Async.Net.{ErrorCode, Asio, IsAsio}
use smoll.Async.Loopback.{IsPrefix, IsPrefix-trans}
use smoll.Async.Posting.{Request, Effect}
use smoll.Async.Posting.Connection.{Blocking, IsBlocking, Connection, responses, handle}
use smoll.Async.Posting.Connection.Answered.{IsUnused, IsAnswered, handle-IsAnswered}
use smoll.Async.Server
use smoll.Async.Server.{new_server}
use smoll.Async.Server.Echo.{IsFreshEvent, run-echoes}

-- A text that some front of the request shows, up to a NUL.
pub record IsShownOf (request response : Bytes) : Type 0 where
  pub front : Bytes
  pub is_front : IsPrefix front request
  pub shown : response ≡ c_str front

module _ {S T : Type 0} (client_net : Blocking S) (server_net : Asio T) where
  -- TCP between a socket of the one and a socket of the other.
  pub record IsJoined (s : S) (t : T) : Type 0 where
    pub to_server : IsPrefix (server_net.taken t) (client_net.sent s)
    pub to_client : IsPrefix (client_net.taken s) (server_net.sent t)

  front_of_request :
      (law : IsAsio server_net) (events : List (Server.Event T)) (j : ℕ) (d : Server.Connection T)
      (s : S)
      → All (IsFreshEvent server_net) events
      → get_elem? (Server.run server_net (new_server server_net) events).connections j ≡ some d
      → IsJoined s d.socket
      → IsPrefix (client_net.taken s) (client_net.sent s)
  front_of_request law events j d s fresh reached joined =
      let (echoed, drained) = run-echoes server_net law events j d fresh reached in
      IsPrefix-trans joined.to_client (
        IsPrefix-trans (record { rest = d.session.write_buffer; whole = sym echoed })
          joined.to_server)

  -- Take a request of client2.cpp on an unused socket, whatever the resolver and the socket answer, and
  -- any run of the echo server on fresh sockets, with any errors, both on an asio that keeps its
  -- contract. Where the handler returns, and its socket is joined to a connection of that server, each
  -- callback that it calls is given a front of its own request, up to a NUL, and nothing else.
  pub handle-echoes :
      (client_law : IsBlocking client_net) (server_law : IsAsio server_net) (r : Request)
      (ec : ErrorCode) (found : Bool) (c after : Connection S) (effects : List Effect)
      (events : List (Server.Event T)) (j : ℕ) (d : Server.Connection T)
      → IsUnused client_net c.socket
      → All (IsFreshEvent server_net) events
      → handle client_net r ec found c ≡ some (after, effects)
      → get_elem? (Server.run server_net (new_server server_net) events).connections j ≡ some d
      → IsJoined after.socket d.socket
      → All (IsShownOf r.text) (responses effects)
  handle-echoes client_law server_law r ec found c after effects events j d unused fresh returned
        reached joined =
      let answered =
        Holds-some (IsAnswered client_net r) _ (after, effects) returned
          (handle-IsAnswered client_net client_law r ec found c unused).1 in
      let front = front_of_request server_law events j d after.socket fresh reached joined in
      All-imp _ (IsShownOf r.text) (responses effects)
        (λ response h. record {
          front = client_net.taken after.socket;
          is_front = subst (IsPrefix (client_net.taken after.socket)) h.0 front;
          shown = h.1;
        })
        answered
