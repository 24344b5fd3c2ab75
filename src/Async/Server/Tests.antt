-- ===== src/Async/Server/Tests.antt =====
-- The echo server on a scripted network: tests, and the theorems at concrete inputs.
use smoll.Base.{
  ℕ, ◌<◌, ◌≢◌, take, length, arith, ◌≡◌, refl, true, false, List, [], ◌∷◌, ◌++◌, get_elem?, some,
  ◌⊎◌,
}
use smoll.Async.Net.{success, would_block, eof}
use smoll.Async.Server.{
  State, wait_read, wait_write, Connection, start, complete, Event, accepted, completed, new_server,
  run,
}
use smoll.Async.Script.{Peer, peer, net, net-IsAsio}
use smoll.Async.Server.Waiting.{IsReadArmed, IsWriteArmed, IsServing, run-IsServing}
use smoll.Async.Server.Drain.{IsWritable, write_times, drains}
use smoll.Async.Server.Echo.{run-echoes}
use smoll.Async.Server.Isolation.{live, life, run-life}
use smoll.Async.Server.Service.{IsServed, history}
use smoll.Async.Server.Refinement.{run-Service}

abbrev schedule : List (Event Peer)
schedule =
    accepted success (peer would_block)
    ∷ completed 0 wait_read success
    ∷ completed 0 wait_write success
    ∷ []

abbrev half_echoed : Connection Peer
half_echoed = record {
  socket = record {
    ending = would_block;
    is_live = true;
    taken = b'h' ∷ b'i' ∷ [];
    sent = b'h' ∷ [];
  };
  session = record { state = State.writing; write_buffer = b'i' ∷ [] };
  read_in_progress = false;
  write_in_progress = true;
  waits = wait_write ∷ [];
}

half_echoed_reached :
    get_elem? (run (net 1) (new_server (net 1)) schedule).connections 0 ≡ some half_echoed
unfolding run new_server start complete
half_echoed_reached = refl

run-IsServing_example : IsServing (net 1) (run (net 1) (new_server (net 1)) schedule)
run-IsServing_example = run-IsServing (net 1) (net-IsAsio 1) schedule

run-echoes_example :
    (half_echoed.socket.taken ≡ half_echoed.socket.sent ++ half_echoed.session.write_buffer)
    × ((half_echoed.session.state ≡ State.writing) ⊎ (half_echoed.session.write_buffer ≡ []))
run-echoes_example =
    run-echoes (net 1) (net-IsAsio 1) schedule 0 half_echoed (refl, (tt, (tt, tt)))
      half_echoed_reached

half_echoed-IsWriteArmed : IsWriteArmed (net 1) half_echoed
half_echoed-IsWriteArmed = record {
  state_writes = refl;
  read_off = refl;
  write_on = refl;
  one_wait = refl;
}

take_one : (b : List ℕ) → b ≢ [] → 0 < length (take 1 b)
take_one [] h = absurd (h refl)
take_one (x ∷ b) h = omega arith

net-IsWritable : IsWritable (net 1)
net-IsWritable = record { progress = λ s b h. take_one b h; clean = λ s b. refl }

drains_example :
    IsReadArmed (net 1) (write_times (net 1) 1 half_echoed)
    × ((write_times (net 1) 1 half_echoed).session.write_buffer ≡ [])
    × ((write_times (net 1) 1 half_echoed).socket.sent ≡ b'h' ∷ b'i' ∷ [])
drains_example =
    drains (net 1) (net-IsAsio 1) net-IsWritable 1 half_echoed half_echoed-IsWriteArmed (λ e. cc)
      (omega arith)

abbrev closing : Connection Peer
closing = record {
  socket = peer eof;
  session = record { state = State.reading; write_buffer = [] };
  read_in_progress = true;
  write_in_progress = false;
  waits = wait_read ∷ [];
}

closing-IsReadArmed : IsReadArmed (net 1) closing
closing-IsReadArmed = record {
  state_reads = refl;
  read_on = refl;
  write_off = refl;
  one_wait = refl;
}

run-Service_example :
    IsServed [] (history (net 1) (new_server (net 1)) (schedule ++ completed 0 wait_write eof ∷ []))
run-Service_example =
    run-Service (net 1) (net-IsAsio 1) (schedule ++ completed 0 wait_write eof ∷ [])
      (refl, (tt, (tt, (tt, tt))))

-- Two connections, whose reports come by turns.
abbrev by_turns : List (Event Peer)
by_turns =
    accepted success (peer would_block)
    ∷ accepted success (peer would_block)
    ∷ completed 0 wait_read success
    ∷ completed 1 wait_read success
    ∷ completed 1 wait_write success
    ∷ []

run-life_example :
    get_elem? (run (net 3) (new_server (net 3)) by_turns).connections 1
    ≡ some (live (net 3) (peer would_block, (wait_read, success) ∷ (wait_write, success) ∷ []))
unfolding life
run-life_example = run-life (net 3) by_turns 1
