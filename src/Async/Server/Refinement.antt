-- ===== src/Async/Server/Refinement.antt =====
-- The server of Async.Server refines the service of Async.Server.Service: every completion is a turn of
-- the relay that it concerns.
use smoll.Base.{
  ℕ, zero, suc, ◌≡◌, refl, sym, ap, ◌∙◌, inl, inr, Bool, true, false, not, List, [], ◌∷◌, ◌++◌, map,
  get_elem?-map, map-set, All-get_elem?, arith, All, get_elem?, Option-cases, Bool-cases, some,
  none, take, append-nil, if◌then◌else◌,
}
use mathlib.Core.List.{map-append}
use smoll.Async.Net.{ErrorCode, is_error, Asio, IsAsio}
use smoll.Async.Server.{
  Wait, Connection, session_read, session_write, operations, proceed, on_readable, on_writable,
  new_connection, start, complete, handler, take_wait, Server, Event, accepted, completed,
  new_server, step,
}
use smoll.Async.Server.Waiting.{IsReadArmed, IsWriteArmed, IsServing, step-IsServing}
use smoll.Async.Server.Echo.{step-IsSound, IsEcho, IsSound, IsFresh, IsFreshEvent}
use smoll.Async.Server.Service.{
  Relay, reading, writing, receive, send, Turn, rests, steps, ends, ServiceStep, join, refuse,
  nobody, move, IsServed, has_waits, view, relays, way_of, label_of, history,
}

take_if :
    (b : Bool) (n : ℕ) (l : List ℕ) → (if b then [] else take n l) ≡ take (if b then 0 else n) l
take_if true n l = refl
take_if false n l = refl

map-none :
    {A B : Type 0} (f : A → B) (xs : List A) (i : ℕ)
    → get_elem? xs i ≡ none
    → get_elem? (map f xs) i ≡ none
map-none f [] i h = refl
map-none f (x ∷ xs) zero h = cc
map-none f (x ∷ xs) (suc i) h = map-none f xs i h

module _ {S : Type 0} (net : Asio S) where
  proceed-socket :
      (law : IsAsio net) (c : Connection S) (ec : ErrorCode)
      → (net.taken (proceed net (c, ec)).socket ≡ net.taken c.socket)
        × (net.sent (proceed net (c, ec)).socket ≡ net.sent c.socket)
  unfolding proceed operations
  proceed-socket law c ec =
      ground (arith, law.close_sends_nothing c.socket, law.close_takes_nothing c.socket)

  session_read-socket :
      (c : Connection S) → (session_read net c).0.socket ≡ (net.read c.socket).socket
  unfolding session_read
  session_read-socket c = ground arith

  session_write-socket :
      (c : Connection S)
      → (session_write net c).0.socket ≡ (net.write c.socket c.session.write_buffer).socket
  unfolding session_write
  session_write-socket c = ground arith

  -- The two handlers, by whether the wait has failed.
  read_case-socket :
      (law : IsAsio net) (failed : Bool) (ec : ErrorCode) (d : Connection S)
      → let next = proceed net (if not failed then session_read net d else (d, ec)) in
        (net.taken next.socket
          ≡ net.taken d.socket ++ (if failed then [] else (net.read d.socket).bytes))
        × (net.sent next.socket ≡ net.sent d.socket)
  read_case-socket law true ec d =
      let (t, s) = proceed-socket law d ec in (t ∙ sym (append-nil _), s)
  read_case-socket law false ec d =
      let p = session_read net d in
      let (t, s) = proceed-socket law p.0 p.1 in
      (
        t ∙ ap net.taken (session_read-socket d) ∙ law.read_takes d.socket,
        s ∙ ap net.sent (session_read-socket d) ∙ law.read_sends_nothing d.socket,
      )

  write_case-socket :
      (law : IsAsio net) (failed : Bool) (ec : ErrorCode) (d : Connection S)
      → let next = proceed net (if not failed then session_write net d else (d, ec)) in
        let buffer = d.session.write_buffer in
        (net.taken next.socket ≡ net.taken d.socket)
        × (net.sent next.socket
            ≡ net.sent d.socket
              ++ (if failed then [] else take (net.write d.socket buffer).count buffer))
  write_case-socket law true ec d =
      let (t, s) = proceed-socket law d ec in (t, s ∙ sym (append-nil _))
  write_case-socket law false ec d =
      let p = session_write net d in
      let (t, s) = proceed-socket law p.0 p.1 in
      let buffer = d.session.write_buffer in
      (
        t ∙ ap net.taken (session_write-socket d) ∙ law.write_takes_nothing d.socket buffer,
        s ∙ ap net.sent (session_write-socket d) ∙ law.write_sends d.socket buffer,
      )

  -- A handler's effect on the sockets, as a turn of the relay, by whether it goes on or has closed.
  receive-Turn :
      (r s : Relay) (bytes : List ℕ)
      → r.served ≡ true
      → r.received ≡ r.sent
      → s.received ≡ r.received ++ bytes
      → s.sent ≡ r.sent
      → Turn r s reading
  receive-Turn r s bytes on level e f = elim (Bool-cases s.served) [
    | inl up ↦ steps (receive bytes on level e f up)
    | inr down ↦
        ends (record s { served = true }) (receive bytes on level e f refl)
          (ap (λ b. record s { served = b }) down)
  ]

  send-Turn :
      (r s : Relay) (owed : List ℕ) (n : ℕ)
      → r.served ≡ true
      → r.received ≡ r.sent ++ owed
      → s.received ≡ r.received
      → s.sent ≡ r.sent ++ take n owed
      → Turn r s writing
  send-Turn r s owed n on owes e f = elim (Bool-cases s.served) [
    | inl up ↦ steps (send owed n on owes e f up)
    | inr down ↦
        ends (record s { served = true }) (send owed n on owes e f refl)
          (ap (λ b. record s { served = b }) down)
  ]

  on_readable-Turn :
      (law : IsAsio net) (ec : ErrorCode) (c : Connection S)
      → IsReadArmed net c
      → IsEcho net c
      → Turn (view net c) (view net (on_readable net ec (record c { waits = [] }))) reading
  unfolding on_readable view
  on_readable-Turn law ec c p h =
      let d = record c { waits = []; read_in_progress = false } in
      let (taken, sent) = read_case-socket law (is_error ec) ec d in
      receive-Turn (view net c) (view net (on_readable net ec (record c { waits = [] })))
        (if is_error ec then [] else (net.read c.socket).bytes) (ap has_waits p.one_wait)
        (h.echoed ∙ ap (λ b. net.sent c.socket ++ b) (h.drained p.state_reads) ∙ append-nil _) taken
        sent

  on_writable-Turn :
      (law : IsAsio net) (ec : ErrorCode) (c : Connection S)
      → IsWriteArmed net c
      → IsEcho net c
      → Turn (view net c) (view net (on_writable net ec (record c { waits = [] }))) writing
  unfolding on_writable view
  on_writable-Turn law ec c p h =
      let d = record c { waits = []; write_in_progress = false } in
      let buffer = c.session.write_buffer in
      let (taken, sent) = write_case-socket law (is_error ec) ec d in
      send-Turn (view net c) (view net (on_writable net ec (record c { waits = [] }))) buffer
        (if is_error ec then 0 else (net.write c.socket buffer).count) (ap has_waits p.one_wait)
        h.echoed taken (sent ∙ ap (λ b. net.sent c.socket ++ b) (take_if (is_error ec) _ buffer))

  idle-Turn :
      (w : Wait) (ec : ErrorCode) (c : Connection S)
      → take_wait w c.waits ≡ none
      → Turn (view net c) (view net (complete net w ec c)) (way_of w)
  unfolding complete
  idle-Turn w ec c e = simp (e, complete) (rests refl)

  due-Turn :
      (w : Wait) (ec : ErrorCode) (c : Connection S)
      → take_wait w c.waits ≡ some []
      → Turn (view net c) (view net (handler net w ec (record c { waits = [] }))) (way_of w)
      → Turn (view net c) (view net (complete net w ec c)) (way_of w)
  unfolding complete
  due-Turn w ec c e h = simp (e, complete) h

  -- A completion is a turn of the relay, of its own way.
  complete-Turn :
      (law : IsAsio net) (w : Wait) (ec : ErrorCode) (c : Connection S)
      → IsSound net c
      → Turn (view net c) (view net (complete net w ec c)) (way_of w)
  complete-Turn law Wait.wait_read ec c (inl p, h) =
      due-Turn Wait.wait_read ec c (ap (take_wait Wait.wait_read) p.one_wait)
        (on_readable-Turn law ec c p h)
  complete-Turn law Wait.wait_read ec c (inr (inl p), h) =
      idle-Turn Wait.wait_read ec c (ap (take_wait Wait.wait_read) p.one_wait)
  complete-Turn law Wait.wait_read ec c (inr (inr p), h) =
      idle-Turn Wait.wait_read ec c (ap (take_wait Wait.wait_read) p.no_waits)
  complete-Turn law Wait.wait_write ec c (inl p, h) =
      idle-Turn Wait.wait_write ec c (ap (take_wait Wait.wait_write) p.one_wait)
  complete-Turn law Wait.wait_write ec c (inr (inl p), h) =
      due-Turn Wait.wait_write ec c (ap (take_wait Wait.wait_write) p.one_wait)
        (on_writable-Turn law ec c p h)
  complete-Turn law Wait.wait_write ec c (inr (inr p), h) =
      idle-Turn Wait.wait_write ec c (ap (take_wait Wait.wait_write) p.no_waits)

  start-view :
      (law : IsAsio net) (s : S)
      → IsFresh net s
      → let r = view net (start net (new_connection net s)) in
        (r.received ≡ r.sent) × (r.served ≡ true)
  unfolding start view
  start-view law s fresh =
      (law.non_blocking_takes_nothing s ∙ fresh ∙ sym (law.non_blocking_sends_nothing s), refl)

  step-ServiceStep :
      (law : IsAsio net) (s : Server S) (e : Event S)
      → IsFreshEvent net e
      → IsServing net s
      → All (IsSound net) s.connections
      → ServiceStep (relays net s) (relays net (step net s e)) (label_of e)
  unfolding step relays
  step-ServiceStep law s (accepted ec socket) fresh serving sound =
      let (level, served) = start-view law socket fresh in
      let c = start net (new_connection net socket) in
      elim (Bool-cases (is_error ec)) [
        | inl failed ↦ rw (serving.one_accept, failed, step) (refuse refl)
        | inr passed ↦
            rw (serving.one_accept, passed, step)
              (join (view net c) level served (map-append (view net) s.connections (c ∷ [])))
      ]
  step-ServiceStep law s (completed i w ec) fresh serving sound =
      elim (Option-cases (get_elem? s.connections i)) [
        | inl gone ↦
            rw (gone, step) (nobody i (way_of w) (map-none (view net) s.connections i gone) refl)
        | inr (c, found) ↦
            let turn =
              complete-Turn law w ec c
                (All-get_elem? (IsSound net) s.connections i c sound found) in
            rw (found, step)
              (move i (way_of w) (view net c) (view net (complete net w ec c))
                (get_elem?-map (view net) s.connections i c found) turn
                (map-set (view net) s.connections i (complete net w ec c)))
      ]

  history-IsServed :
      (law : IsAsio net) (s : Server S) (es : List (Event S))
      → All (IsFreshEvent net) es
      → IsServing net s
      → All (IsSound net) s.connections
      → IsServed (relays net s) (history net s es)
  unfolding history
  history-IsServed law s [] fresh serving sound = tt
  history-IsServed law s (e ∷ es) (fresh, rest) serving sound = (
    step-ServiceStep law s e fresh serving sound,
    history-IsServed law (step net s e) es rest (step-IsServing net law s e serving)
        (step-IsSound net law s e fresh sound),
  )

  -- For every asio that keeps its contract and every sequence of completions in which the accepted
  -- sockets are fresh, each completion does to what is seen of the connections what the service allows
  -- for it, from what the completion before has left. An accept that passed makes one relay join, which
  -- owes nothing, and one that failed does nothing. A report concerns its own connection alone. There
  -- a read takes bytes in only when all that came in has gone out, and sends nothing; a write sends the
  -- front of what is owed, and takes nothing in; either may end the relay. A relay that is no longer
  -- served never moves again.
  pub run-Service :
      (law : IsAsio net) (es : List (Event S))
      → All (IsFreshEvent net) es
      → IsServed [] (history net (new_server net) es)
  unfolding relays new_server
  run-Service law es fresh =
      history-IsServed law (new_server net) es fresh (record { one_accept = refl; phases = tt }) tt
