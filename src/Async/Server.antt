-- ===== src/Async/Server.antt =====
-- cpp/async/nonblocking/server.cpp, and cpp/async/nonblocking.cpp, which is the same text: the echo
-- server. `Session`, `Connection` and `Server` with every handler. A handler that asio holds for a
-- connection is an entry of `waits`; the event loop may complete any entry, with any error code.
pub mod Waiting
pub mod Echo
pub mod Closing
pub mod Drain
pub mod Service
pub mod Refinement
pub mod Isolation
mod Tests
use mathlib.Core.Option
use smoll.Base.{
  ℕ, zero, suc, ◌+◌, ◌-◌, ◌≡◌, Bool, true, false, not, ◌&&◌, ◌||◌, Option, none, some, List, [],
  ◌∷◌, ◌++◌, get_elem?, set, if◌then◌else◌,
}
use smoll.Async.Net.{ErrorCode, is_error, is_would_block, Asio, consume}

-- The unnamed enum of `Session::state_`.
pub data State : Type 0 where
  reading writing : State

pub record Session : Type 0 where
  pub state : State
  pub write_buffer : List ℕ

unfoldable pub new_session : Session
new_session = record { state = State.reading; write_buffer = [] }

abbrev pub ready_read : Session → Bool
ready_read s = elim (s.state) [ State.reading ↦ true | State.writing ↦ false ]

abbrev pub ready_write : Session → Bool
ready_write s = elim (s.state) [ State.reading ↦ false | State.writing ↦ true ]

-- `wait_read` and `wait_write` of `async_wait`.
pub data Wait : Type 0 where
  wait_read wait_write : Wait

pub record Connection (S : Type 0) : Type 0 where
  pub socket : S
  pub session : Session
  pub read_in_progress : Bool
  pub write_in_progress : Bool
  pub waits : List Wait

-- `size() > 0 ? writing : reading`.
abbrev pub state_after_write : List ℕ → State
state_after_write [] = State.reading
state_after_write (x ∷ xs) = State.writing

abbrev pub is_positive : ℕ → Bool
is_positive zero = false
is_positive (suc n) = true

abbrev pub is_nonempty : List ℕ → Bool
is_nonempty [] = false
is_nonempty (x ∷ xs) = true

abbrev pub is_wait : Wait → Wait → Bool
is_wait Wait.wait_read Wait.wait_read = true
is_wait Wait.wait_write Wait.wait_write = true
is_wait _ _ = false

-- The first entry of a kind, taken out.
abbrev pub take_wait : Wait → List Wait → Option (List Wait)
take_wait w [] = none
take_wait w (v ∷ vs) =
    if is_wait w v then some vs else Option.map (λ rest. v ∷ rest) (take_wait w vs)

module _ {S : Type 0} (net : Asio S) where
  -- `Session::read`: the state changes only where bytes came, whatever the error code says.
  unfoldable pub session_read : Connection S → Connection S × ErrorCode
  session_read c =
      let r = net.read c.socket in
      if is_nonempty r.bytes
      then (
        record c {
          socket = r.socket;
          session = record { state = State.writing; write_buffer = r.bytes };
        },
        r.ec,
      )
      else (record c { socket = r.socket }, r.ec)

  -- `Session::write`: the buffer is consumed by the call itself.
  unfoldable pub session_write : Connection S → Connection S × ErrorCode
  session_write c =
      let r = net.write c.socket c.session.write_buffer in
      let rest = consume r.count c.session.write_buffer in
      if is_positive r.count
      then (
        record c {
          socket = r.socket;
          session = record { state = state_after_write rest; write_buffer = rest };
        },
        r.ec,
      )
      else (
        record c {
          socket = r.socket;
          session = record { state = c.session.state; write_buffer = rest };
        },
        r.ec,
      )

  -- The two halves of `Connection::operations`.
  unfoldable pub arm_read : Connection S → Connection S
  arm_read c =
      if ready_read c.session && not c.read_in_progress
      then record c { read_in_progress = true; waits = Wait.wait_read ∷ c.waits }
      else c

  unfoldable pub arm_write : Connection S → Connection S
  arm_write c =
      if ready_write c.session && not c.write_in_progress
      then record c { write_in_progress = true; waits = Wait.wait_write ∷ c.waits }
      else c

  unfoldable pub operations : Connection S → Connection S
  unfolding arm_read arm_write
  operations c = arm_write (arm_read c)

  -- The tail that both handlers share.
  unfoldable pub proceed : Connection S × ErrorCode → Connection S
  unfolding operations
  proceed (c, ec) =
      if not (is_error ec) || is_would_block ec
      then operations c
      else record c { socket = net.close c.socket }

  unfoldable pub on_readable : ErrorCode → Connection S → Connection S
  unfolding proceed session_read
  on_readable ec c =
      let d = record c { read_in_progress = false } in
      proceed (if not (is_error ec) then session_read d else (d, ec))

  unfoldable pub on_writable : ErrorCode → Connection S → Connection S
  unfolding proceed session_write
  on_writable ec c =
      let d = record c { write_in_progress = false } in
      proceed (if not (is_error ec) then session_write d else (d, ec))

  -- The constructor of `Connection`.
  abbrev pub new_connection : S → Connection S
  new_connection socket = record {
    socket = socket;
    session = new_session;
    read_in_progress = false;
    write_in_progress = false;
    waits = [];
  }

  -- `Connection::start`.
  unfoldable pub start : Connection S → Connection S
  unfolding operations new_session
  start c = operations (record c { socket = net.non_blocking c.socket })

  abbrev pub handler : Wait → ErrorCode → Connection S → Connection S
  handler Wait.wait_read e d = on_readable e d
  handler Wait.wait_write e d = on_writable e d

  -- The event loop completes one wait that the connection has outstanding.
  unfoldable pub complete : Wait → ErrorCode → Connection S → Connection S
  unfolding on_readable on_writable
  complete w ec c = elim (take_wait w c.waits) [
    | none ↦ c
    | some rest ↦ handler w ec (record c { waits = rest })
  ]

-- `accepting` counts the outstanding `async_accept`s.
pub record Server (S : Type 0) : Type 0 where
  pub accepting : ℕ
  pub connections : List (Connection S)

pub data Event (S : Type 0) : Type 0 where
  accepted : ErrorCode → S → Event S
  completed : ℕ → Wait → ErrorCode → Event S

module _ {S : Type 0} (net : Asio S) where
  unfoldable pub accept : Server S → Server S
  accept s = record s { accepting = s.accepting + 1 }

  unfoldable pub on_accept : ErrorCode → S → Server S → Server S
  unfolding accept
  on_accept ec socket s = accept (
      if not (is_error ec)
      then record s { connections = s.connections ++ start net (new_connection net socket) ∷ [] }
      else s)

  -- The constructor of `Server`.
  unfoldable pub new_server : Server S
  unfolding accept
  new_server = accept (record { accepting = 0; connections = [] })

  -- One round of `io_context.run()`.
  unfoldable pub step : Server S → Event S → Server S
  unfolding on_accept
  step s (accepted ec socket) =
      if is_positive s.accepting
      then on_accept ec socket (record s { accepting = s.accepting - 1 })
      else s
  step s (completed i w ec) = elim (get_elem? s.connections i) [
    | none ↦ s
    | some c ↦ record s { connections = set s.connections i (complete net w ec c) }
  ]

  unfoldable pub run : Server S → List (Event S) → Server S
  unfolding step
  run s [] = s
  run s (e ∷ es) = run (step s e) es
