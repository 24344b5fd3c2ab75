-- ===== src/Async/Programs/Tests.antt =====
-- The two programs on the scripted network: the front of the request comes back.
use smoll.Base.{refl, true, false, List, [], ◌∷◌, codes}
use smoll.Async.Net.{Asio, success, would_block}
use smoll.Async.Script.{Peer, peer, net_of, net_of-IsAsio}
use smoll.Async.Client
use smoll.Async.Server
use smoll.Async.Server.{State, accepted}
use smoll.Async.Loopback.{IsPrefix}
use smoll.Async.Programs.{server_main, client_main, request_text, programs_echo}

-- Each read brings two bytes, and each write takes three.
abbrev net : Asio Peer
net = net_of (codes "GE") 3

abbrev client_events : List Client.Event
client_events =
    Client.resolved 0 success true
    ∷ Client.completed 0 0 success
    ∷ Client.completed 0 0 success
    ∷ []

abbrev server_events : List (Server.Event Peer)
server_events =
    accepted success (peer would_block)
    ∷ Server.completed 0 Server.wait_read success
    ∷ Server.completed 0 Server.wait_write success
    ∷ []

unfoldable client_end : Client.Client Peer
unfolding Client.run Client.send_all
client_end =
    Client.run net
      (Client.send_all
        ((peer would_block, request_text)
          ∷ (peer would_block, request_text)
          ∷ (peer would_block, request_text)
          ∷ [])
        (Client.new_client Peer))
      client_events

unfoldable server_end : Server.Server Peer
unfolding Server.run Server.new_server
server_end = Server.run net (Server.new_server net) server_events

abbrev asked : Client.Connection Peer
asked = record {
  socket = record { ending = would_block; is_live = true; taken = codes "GE"; sent = codes "GET" };
  session = record { state = State.reading; write_buffer = []; read_buffer = codes "GE" };
  read_in_progress = false;
  write_in_progress = false;
  waits = [];
}

abbrev echoed : Server.Connection Peer
echoed = record {
  socket = record { ending = would_block; is_live = true; taken = codes "GE"; sent = codes "GE" };
  session = record { state = State.reading; write_buffer = [] };
  read_in_progress = true;
  write_in_progress = false;
  waits = Server.wait_read ∷ [];
}

programs_echo_example : IsPrefix (codes "GE") request_text
unfolding client_main server_main client_end server_end Client.complete Client.request
    Client.response Server.complete Server.start
programs_echo_example =
    programs_echo net net (net_of-IsAsio (codes "GE") 3) (net_of-IsAsio (codes "GE") 3) (λ ip. true)
      (λ port. true) (peer would_block) (peer would_block) (peer would_block) client_events
      server_events (codes "127.0.0.1") (codes "80") (codes "80") client_end server_end 0 0 asked
      echoed ((refl, refl), ((refl, refl), ((refl, refl), tt))) (refl, (tt, (tt, tt))) refl refl
      refl refl
      (record {
        to_server = record { rest = codes "T"; whole = refl };
        to_client = record { rest = []; whole = refl };
      })
