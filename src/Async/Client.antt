-- ===== src/Async/Client.antt =====
-- cpp/async/nonblocking/client.cpp: `Session`, `Connection` and `Client`. A handler that asio holds
-- is an entry of `waits`, with the request that its closure keeps; a name that is being resolved is
-- an entry of `resolving`. What is printed is left out, but for the outcome of the resolver.
pub mod Stages
pub mod Once
mod Tests
use mathlib.Core.Option
use smoll.Base.{
  ℕ, zero, suc, ◌+◌, ◌≡◌, Bool, true, false, not, ◌&&◌, Option, none, some, List, [], ◌∷◌, ◌++◌,
  get_elem?, set, take_at, length, if◌then◌else◌,
}
use smoll.Async.Net.{ErrorCode, is_error, Asio}
use smoll.Async.Server.{State, is_positive, state_after_write}

pub record Session : Type 0 where
  pub state : State
  pub write_buffer : List ℕ
  pub read_buffer : List ℕ

abbrev pub new_session : Session
new_session = record { state = State.writing; write_buffer = []; read_buffer = [] }

abbrev pub ready_read : Session → Bool
ready_read s = elim (s.state) [ State.reading ↦ true | State.writing ↦ false ]

abbrev pub ready_write : Session → Bool
ready_write s = elim (s.state) [ State.reading ↦ false | State.writing ↦ true ]

-- The write handler's closure holds the request.
pub data Wait : Type 0 where
  to_write : List ℕ → Wait
  to_read : Wait

pub record Connection (S : Type 0) : Type 0 where
  pub socket : S
  pub session : Session
  pub read_in_progress : Bool
  pub write_in_progress : Bool
  pub waits : List Wait

-- `std::make_shared<Connection>`.
abbrev pub new_connection : {S : Type 0} → S → Connection S
new_connection socket = record {
  socket = socket;
  session = new_session;
  read_in_progress = false;
  write_in_progress = false;
  waits = [];
}

module _ {S : Type 0} (net : Asio S) where
  -- `Session::read`.
  unfoldable pub session_read : Connection S → Connection S
  session_read c =
      let r = net.read c.socket in
      let d = record c { socket = r.socket } in
      if is_positive (length r.bytes)
      then record d { session = record (c.session) { read_buffer = r.bytes } }
      else d

  -- `Session::write`: the call consumes its own copy of the request, and the state is taken from
  -- `write_buffer_`.
  unfoldable pub session_write : List ℕ → Connection S → Connection S
  session_write request c =
      let r = net.write c.socket request in
      let d = record c { socket = r.socket } in
      if is_positive r.count
      then record d {
        session = record (c.session) { state = state_after_write c.session.write_buffer };
      }
      else d

  -- `Connection::response`, with the handler of its wait.
  unfoldable pub response : Connection S → Connection S
  response c =
      if ready_read c.session && not c.read_in_progress
      then record c { read_in_progress = true; waits = Wait.to_read ∷ c.waits }
      else c

  unfoldable pub on_readable : ErrorCode → Connection S → Connection S
  unfolding session_read
  on_readable ec c =
      let d = record c { read_in_progress = false } in
      if not (is_error ec) then session_read d else d

  -- `Connection::request`, with the handler of its wait.
  unfoldable pub request : List ℕ → Connection S → Connection S
  request req c =
      if ready_write c.session && not c.write_in_progress
      then record c { write_in_progress = true; waits = Wait.to_write req ∷ c.waits }
      else c

  unfoldable pub on_writable : List ℕ → ErrorCode → Connection S → Connection S
  unfolding session_write response
  on_writable req ec c =
      let d = record c { write_in_progress = false } in
      response (if not (is_error ec) then session_write req d else d)

  abbrev pub handler : Wait → ErrorCode → Connection S → Connection S
  handler (Wait.to_write req) ec c = on_writable req ec c
  handler Wait.to_read ec c = on_readable ec c

  -- The event loop completes the `k`th wait of the connection.
  unfoldable pub complete : ℕ → ErrorCode → Connection S → Connection S
  unfolding on_writable on_readable
  complete k ec c = elim (take_at k c.waits) [
    | none ↦ c
    | some (w, rest) ↦ handler w ec (record c { waits = rest })
  ]

-- `resolving` holds the closures of the resolver's handlers: the place of the connection in
-- `connections_`, and the request.
pub record Client (S : Type 0) : Type 0 where
  pub connections : List (Connection S)
  pub resolving : List (ℕ × List ℕ)

abbrev pub new_client : (S : Type 0) → Client S
new_client S = record { connections = []; resolving = [] }

-- What the event loop may do next: complete the `k`th resolution, with an error code and whether
-- there are results, or the `k`th wait of a connection.
pub data Event : Type 0 where
  resolved : ℕ → ErrorCode → Bool → Event
  completed : ℕ → ℕ → ErrorCode → Event

module _ {S : Type 0} where
  -- `Client::async_request`, to which `send_request` comes down; the socket is the new one.
  unfoldable pub async_request : S → List ℕ → Client S → Client S
  async_request socket r cl = record {
    connections = cl.connections ++ new_connection socket ∷ [];
    resolving = cl.resolving ++ (length cl.connections, r) ∷ [];
  }

  -- `main` sends its requests before it runs the loop.
  unfoldable pub send_all : List (S × List ℕ) → Client S → Client S
  unfolding async_request
  send_all [] cl = cl
  send_all ((s, r) ∷ rs) cl = send_all rs (async_request s r cl)

module _ {S : Type 0} (net : Asio S) where
  -- The handler of `async_resolve`, for its connection; `none` is the exception of `connect`.
  unfoldable pub on_resolve : List ℕ → ErrorCode → Bool → Connection S → Option (Connection S)
  unfolding request
  on_resolve r ec has_results c =
      if not (is_error ec) && has_results
      then elim (net.connect c.socket) [
        | none ↦ none
        | some s ↦
            let d = record c { socket = s } in some (if net.is_open s then request net r d else d)
      ]
      else some (record c { socket = net.close c.socket })

  -- One round of the event loop; an exception ends it.
  unfoldable pub step : Client S → Event → Option (Client S)
  unfolding on_resolve
  step cl (resolved k ec has_results) = elim (take_at k cl.resolving) [
    | none ↦ some cl
    | some (entry, rest) ↦ elim (get_elem? cl.connections entry.0) [
      | none ↦ some cl
      | some c ↦
          Option.map (λ d. record { connections = set cl.connections entry.0 d; resolving = rest })
            (on_resolve entry.1 ec has_results c)
    ]
  ]
  step cl (completed i k ec) = elim (get_elem? cl.connections i) [
    | none ↦ some cl
    | some c ↦ some (record cl { connections = set cl.connections i (complete net k ec c) })
  ]

  -- The client as the event loop leaves it: after the events, or before the one that threw.
  unfoldable pub run : Client S → List Event → Client S
  unfolding step
  run cl [] = cl
  run cl (e ∷ es) = elim (step cl e) [ none ↦ cl | some next ↦ run next es ]
