-- ===== src/Async/Posting/Connection/Tests.antt =====
-- A connection of client2.cpp to a peer that answers every request alike.
use smoll.Base.{◌≡◌, refl, [], ◌∷◌, ◌++◌, Bytes, codes, c_str, true, false, some, length, List, All}
use mathlib.Core.Option
use smoll.Async.Net.{success, would_block, eof}
use smoll.Async.Posting.{Request, call_back, connected, written, read, called}
use smoll.Async.Posting.Connection.{Blocking, IsBlocking, Connection, handle, responses}
use smoll.Async.Posting.Connection.Echo.{IsShownOf, handle-echoes}
use smoll.Async.Script
use smoll.Async.Server

-- What was taken, and what was sent.
abbrev Peer : Type 0
Peer = Bytes × Bytes

-- A response with a NUL in it.
abbrev answer : Bytes
answer = codes "ok" ++ 0 ∷ codes "lost"

abbrev peer : Blocking Peer
peer = record {
  connect = λ s. some s;
  read = λ s. record { socket = (s.0 ++ answer, s.1); bytes = answer; ec = eof };
  write = λ s b. record { socket = (s.0, s.1 ++ b); count = length b; ec = success };
  close = λ s. s;
  is_open = λ s. true;
  taken = λ s. s.0;
  sent = λ s. s.1;
}

peer-IsBlocking : IsBlocking peer
peer-IsBlocking = record {
  connect_sends_nothing = λ s t e. cc;
  connect_takes_nothing = λ s t e. cc;
  write_sends = λ s b e. refl;
  write_takes_nothing = λ s b. refl;
  write_not_eof = λ s b. refl;
  read_takes = λ s. refl;
  read_sends_nothing = λ s. refl;
}

abbrev request : Request
request = record { text = codes "GET /"; respcb = some 1 }

abbrev unused : Connection Peer
unused = record { id = 1; socket = ([], []) }

called_with_ok :
    Option.map (λ p. responses p.1) (handle peer request success true unused)
    ≡ some (codes "ok" ∷ [])
unfolding handle c_str call_back
called_with_ok = refl

-- A peer from which the first two bytes of a request come back.
abbrev echoing : Blocking Peer
echoing = record {
  connect = λ s. some s;
  read = λ s. record { socket = (s.0 ++ codes "GE", s.1); bytes = codes "GE"; ec = eof };
  write = λ s b. record { socket = (s.0, s.1 ++ b); count = length b; ec = success };
  close = λ s. s;
  is_open = λ s. true;
  taken = λ s. s.0;
  sent = λ s. s.1;
}

echoing-IsBlocking : IsBlocking echoing
echoing-IsBlocking = record {
  connect_sends_nothing = λ s t e. cc;
  connect_takes_nothing = λ s t e. cc;
  write_sends = λ s b e. refl;
  write_takes_nothing = λ s b. refl;
  write_not_eof = λ s b. refl;
  read_takes = λ s. refl;
  read_sends_nothing = λ s. refl;
}

abbrev server_events : List (Server.Event Script.Peer)
server_events =
    Server.accepted success (Script.peer would_block)
    ∷ Server.completed 0 Server.wait_read success
    ∷ Server.completed 0 Server.wait_write success
    ∷ []

abbrev echoed : Server.Connection Script.Peer
echoed = record {
  socket = record { ending = would_block; is_live = true; taken = codes "GE"; sent = codes "GE" };
  session = record { state = Server.State.reading; write_buffer = [] };
  read_in_progress = true;
  write_in_progress = false;
  waits = Server.wait_read ∷ [];
}

handle-echoes_example : All (IsShownOf (codes "GET /")) (codes "GE" ∷ [])
unfolding handle Server.run Server.new_server Server.complete Server.start call_back c_str
handle-echoes_example =
    handle-echoes echoing (Script.net_of (codes "GE") 3) echoing-IsBlocking
      (Script.net_of-IsAsio (codes "GE") 3) request success true unused
      (record { id = 1; socket = (codes "GE", codes "GET /") })
      (connected 1 ∷ written 1 (codes "GET /") ∷ read 1 ∷ called 1 (codes "GE") ∷ []) server_events
      0 echoed (record { nothing_sent = refl; nothing_taken = refl }) (refl, (tt, (tt, tt))) refl
      refl
      (record {
        to_server = record { rest = codes "T /"; whole = refl };
        to_client = record { rest = []; whole = refl };
      })
