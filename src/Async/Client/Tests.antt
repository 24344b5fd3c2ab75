-- ===== src/Async/Client/Tests.antt =====
-- The client on a scripted network: a test, and the theorem at a concrete input.
use smoll.Base.{ℕ, ◌<◌, ◌≡◌, refl, true, false, List, [], ◌∷◌, take, get_elem?, some, ◌⊎◌, map}
use smoll.Async.Net.{success, eof}
use smoll.Async.Server.{State}
use smoll.Async.Script.{Peer, peer, net, net-IsAsio}
use smoll.Async.Client.{
  Wait, Connection, Event, resolved, completed, new_client, send_all, run, complete, request,
}
use smoll.Async.Client.Once.{run-sends_once}

abbrev get_line : List ℕ
get_line = b'G' ∷ b'E' ∷ b'T' ∷ []

abbrev requests : List (Peer × List ℕ)
requests = (peer eof, get_line) ∷ (peer eof, get_line) ∷ []

-- The first connection writes, with a part of the request left over, and waits for its response; the
-- second is still being resolved.
abbrev events : List Event
events = resolved 0 success true ∷ completed 0 0 success ∷ []

abbrev asked : Connection Peer
asked = record {
  socket = record { ending = eof; is_live = true; taken = []; sent = b'G' ∷ b'E' ∷ [] };
  session = record { state = State.reading; write_buffer = []; read_buffer = [] };
  read_in_progress = true;
  write_in_progress = false;
  waits = Wait.to_read ∷ [];
}

asked_reached :
    get_elem? (run (net 2) (send_all requests (new_client Peer)) events).connections 0 ≡ some asked
unfolding run send_all complete request
asked_reached = refl

run-sends_once_example :
    (r : List ℕ) × (get_elem? (map (λ p. p.1) requests) 0 ≡ some r)
    × (((asked.socket.sent ≡ []) × (asked.socket.taken ≡ []))
        ⊎ ((n : ℕ) × (0 < n) × (asked.socket.sent ≡ take n r)))
run-sends_once_example =
    run-sends_once (net 2) (net-IsAsio 2) requests events 0 asked ((refl, refl), ((refl, refl), tt))
      asked_reached
