-- ===== src/Async/Server/Waiting.antt =====
-- Which handlers a connection of the echo server has outstanding: one, of the kind that its state
-- asks for, until the socket is closed.
use smoll.Base.{
  ◌≡◌, refl, ◌⊎◌, inl, inr, true, false, List, [], ◌∷◌, arith, All, All-append, All-set, get_elem?,
  All-get_elem?, Option-cases,
}
use smoll.Async.Net.{ErrorCode, Asio, IsAsio}
use smoll.Async.Server.{
  State, Wait, Connection, session_read, session_write, operations, proceed, on_readable,
  on_writable, new_connection, start, complete, Server, Event, accepted, completed, new_server,
  step, run,
}

module _ {S : Type 0} (net : Asio S) where
  pub record IsReadArmed (c : Connection S) : Type 0 where
    pub state_reads : c.session.state ≡ State.reading
    pub read_on : c.read_in_progress ≡ true
    pub write_off : c.write_in_progress ≡ false
    pub one_wait : c.waits ≡ Wait.wait_read ∷ []

  pub record IsWriteArmed (c : Connection S) : Type 0 where
    pub state_writes : c.session.state ≡ State.writing
    pub read_off : c.read_in_progress ≡ false
    pub write_on : c.write_in_progress ≡ true
    pub one_wait : c.waits ≡ Wait.wait_write ∷ []

  pub record IsClosed (c : Connection S) : Type 0 where
    pub shut : net.is_open c.socket ≡ false
    pub no_waits : c.waits ≡ []

  -- Between two rounds of the event loop.
  abbrev pub Phase : Connection S → Type 0
  Phase c = IsReadArmed c ⊎ IsWriteArmed c ⊎ IsClosed c

  -- Inside a handler: nothing is outstanding.
  record IsIdle (c : Connection S) : Type 0 where
    no_read : c.read_in_progress ≡ false
    no_write : c.write_in_progress ≡ false
    no_waits : c.waits ≡ []

  operations-Phase : (c : Connection S) → IsIdle c → Phase (operations net c)
  unfolding operations
  operations-Phase c h = ground arith

  proceed-Phase :
      (law : IsAsio net) (c : Connection S) (ec : ErrorCode)
      → IsIdle c
      → Phase (proceed net (c, ec))
  unfolding proceed
  proceed-Phase law c ec h = ground (arith, operations-Phase c h, law.close_closes c.socket)

  session_read-IsIdle : (c : Connection S) → IsIdle c → IsIdle (session_read net c).0
  unfolding session_read
  session_read-IsIdle c h = ground arith

  session_write-IsIdle : (c : Connection S) → IsIdle c → IsIdle (session_write net c).0
  unfolding session_write
  session_write-IsIdle c h = ground arith

  on_readable-Phase :
      (law : IsAsio net) (ec : ErrorCode) (c : Connection S)
      → IsReadArmed c
      → Phase (on_readable net ec (record c { waits = [] }))
  unfolding on_readable
  on_readable-Phase law ec c h =
      let d = record c { read_in_progress = false; waits = [] } in
      let idle : IsIdle d = record { no_read = refl; no_write = h.write_off; no_waits = refl } in
      let read : IsIdle (session_read net d).0 = session_read-IsIdle d idle in
      ground (
        arith,
        proceed-Phase law (session_read net d).0 (session_read net d).1 read,
        proceed-Phase law d ec idle,
      )

  on_writable-Phase :
      (law : IsAsio net) (ec : ErrorCode) (c : Connection S)
      → IsWriteArmed c
      → Phase (on_writable net ec (record c { waits = [] }))
  unfolding on_writable
  on_writable-Phase law ec c h =
      let d = record c { write_in_progress = false; waits = [] } in
      let idle : IsIdle d = record { no_read = h.read_off; no_write = refl; no_waits = refl } in
      let wrote : IsIdle (session_write net d).0 = session_write-IsIdle d idle in
      ground (
        arith,
        proceed-Phase law (session_write net d).0 (session_write net d).1 wrote,
        proceed-Phase law d ec idle,
      )

  pub complete-Phase :
      (law : IsAsio net) (w : Wait) (ec : ErrorCode) (c : Connection S)
      → Phase c
      → Phase (complete net w ec c)
  unfolding complete
  complete-Phase law Wait.wait_read ec c (inl h) =
      rw (h.one_wait, complete) (on_readable-Phase law ec c h)
  complete-Phase law Wait.wait_read ec c (inr h) = ground arith
  complete-Phase law Wait.wait_write ec c (inl h) = ground arith
  complete-Phase law Wait.wait_write ec c (inr (inl h)) =
      rw (h.one_wait, complete) (on_writable-Phase law ec c h)
  complete-Phase law Wait.wait_write ec c (inr (inr h)) = ground arith

  pub start-Phase : (s : S) → Phase (start net (new_connection net s))
  unfolding start
  start-Phase s = inl (ground arith)

  -- The acceptor is armed once, and every connection waits for what its state asks for.
  pub record IsServing (s : Server S) : Type 0 where
    pub one_accept : s.accepting ≡ 1
    pub phases : All Phase s.connections

  pub step-IsServing :
      (law : IsAsio net) (s : Server S) (e : Event S) → IsServing s → IsServing (step net s e)
  unfolding step
  step-IsServing law s (accepted ec socket) h = ground (
    arith,
    All-append Phase s.connections (start net (new_connection net socket) ∷ []) h.phases
        (start-Phase socket, tt),
  )
  step-IsServing law s (completed i w ec) h = elim (Option-cases (get_elem? s.connections i)) [
    | inl gone ↦ rw (gone, step) h
    | inr (c, found) ↦
        rw (found, step)
          (record {
            one_accept = h.one_accept;
            phases =
                All-set Phase s.connections i (complete net w ec c)
                  (complete-Phase law w ec c (All-get_elem? Phase s.connections i c h.phases found))
                  h.phases;
          })
  ]

  run-IsServing_from :
      (law : IsAsio net) (s : Server S) (es : List (Event S))
      → IsServing s
      → IsServing (run net s es)
  unfolding run
  run-IsServing_from law s [] h = h
  run-IsServing_from law s (e ∷ es) h =
      run-IsServing_from law (step net s e) es (step-IsServing law s e h)

  -- After any sequence of completions, in any order and with any error codes, the server has exactly
  -- one `async_accept` outstanding. Each connection has exactly one wait outstanding: a read wait
  -- where its session reads, a write wait where it writes, each with its flag up and the other
  -- flag down; or its socket is closed and it has no wait.
  pub run-IsServing :
      (law : IsAsio net) (es : List (Event S)) → IsServing (run net (new_server net) es)
  unfolding new_server
  run-IsServing law es =
      run-IsServing_from law (new_server net) es (record { one_accept = refl; phases = tt })
