-- ===== src/Async/Server/Echo.antt =====
-- The echo server sends back what it reads, byte for byte and in order.
use smoll.Base.{
  ℕ, zero, suc, ◌≡◌, refl, sym, ap, ◌∙◌, ◌⊎◌, inl, inr, false, List, [], ◌∷◌, ◌++◌, arith, All,
  All-append, All-set, All-get_elem?, append-nil, append_assoc, take-append-drop, drop, get_elem?,
  Option-cases, some, Bool-cases,
}
use smoll.Async.Net.{ErrorCode, Asio, IsAsio, consume}
use smoll.Async.Server.{
  State, Wait, Connection, session_read, session_write, operations, proceed, on_readable,
  on_writable, new_connection, start, complete, Server, Event, accepted, completed, new_server,
  step, run, state_after_write, is_nonempty, is_positive,
}
use smoll.Async.Server.Waiting.{Phase, complete-Phase, start-Phase}

is_nonempty-false : (b : List ℕ) → is_nonempty b ≡ false → b ≡ []
is_nonempty-false [] e = refl
is_nonempty-false (x ∷ b) e = cc

state_after_write-drained : (b : List ℕ) → state_after_write b ≡ State.reading → b ≡ []
state_after_write-drained [] e = refl
state_after_write-drained (x ∷ b) e = cc

drop-empty : (n : ℕ) (b : List ℕ) → b ≡ [] → drop n b ≡ []
drop-empty zero b e = e
drop-empty (suc n) [] e = refl
drop-empty (suc n) (x ∷ b) e = cc

module _ {S : Type 0} (net : Asio S) where
  -- What was read is what was sent, followed by what is still to be sent.
  pub record IsEcho (c : Connection S) : Type 0 where
    pub drained : c.session.state ≡ State.reading → c.session.write_buffer ≡ []
    pub echoed : net.taken c.socket ≡ net.sent c.socket ++ c.session.write_buffer

  operations-IsEcho : (c : Connection S) → IsEcho c → IsEcho (operations net c)
  unfolding operations
  operations-IsEcho c h = ground arith

  proceed-IsEcho :
      (law : IsAsio net) (c : Connection S) (ec : ErrorCode)
      → IsEcho c
      → IsEcho (proceed net (c, ec))
  unfolding proceed
  proceed-IsEcho law c ec h = ground (
    arith,
    operations-IsEcho c h,
    law.close_sends_nothing c.socket,
    law.close_takes_nothing c.socket,
  )

  session_read-IsEcho :
      (law : IsAsio net) (c : Connection S)
      → c.session.state ≡ State.reading
      → IsEcho c
      → IsEcho (session_read net c).0
  unfolding session_read
  session_read-IsEcho law c reads h = elim (Bool-cases (is_nonempty (net.read c.socket).bytes)) [
    | inl some_bytes ↦ rw (some_bytes, session_read) (record { drained = λ e. cc; echoed = all })
    | inr no_bytes ↦
        rw (no_bytes, session_read)
          (record {
            drained = h.drained;
            echoed =
                all
                ∙ ap (λ b. net.sent (net.read c.socket).socket ++ b)
                    (is_nonempty-false _ no_bytes ∙ sym (h.drained reads));
          })
  ]
    where
      before : net.taken c.socket ≡ net.sent c.socket
      before = h.echoed ∙ ap (λ b. net.sent c.socket ++ b) (h.drained reads) ∙ append-nil _

      all :
          net.taken (net.read c.socket).socket
          ≡ net.sent (net.read c.socket).socket ++ (net.read c.socket).bytes
      all = rw (law.read_takes, law.read_sends_nothing, before)

  session_write-IsEcho :
      (law : IsAsio net) (c : Connection S) → IsEcho c → IsEcho (session_write net c).0
  unfolding session_write
  session_write-IsEcho law c h = elim (Bool-cases (is_positive n)) [
    | inl some_bytes ↦
        rw (some_bytes, session_write)
          (record { drained = state_after_write-drained (consume n b); echoed = all })
    | inr no_bytes ↦
        rw (no_bytes, session_write)
          (record { drained = λ e. drop-empty n b (h.drained e); echoed = all })
  ]
    where
      b : List ℕ
      b = c.session.write_buffer

      n : ℕ
      n = (net.write c.socket b).count

      all :
          net.taken (net.write c.socket b).socket
          ≡ net.sent (net.write c.socket b).socket ++ consume n b
      all = rw (law.write_takes_nothing, law.write_sends, append_assoc, take-append-drop) h.echoed

  on_readable-IsEcho :
      (law : IsAsio net) (ec : ErrorCode) (c : Connection S)
      → c.session.state ≡ State.reading
      → IsEcho c
      → IsEcho (on_readable net ec c)
  unfolding on_readable
  on_readable-IsEcho law ec c reads h =
      let d = record c { read_in_progress = false } in
      let same : IsEcho d = record { drained = h.drained; echoed = h.echoed } in
      let read = session_read-IsEcho law d reads same in
      ground (
        arith,
        proceed-IsEcho law (session_read net d).0 (session_read net d).1 read,
        proceed-IsEcho law d ec same,
      )

  on_writable-IsEcho :
      (law : IsAsio net) (ec : ErrorCode) (c : Connection S)
      → IsEcho c
      → IsEcho (on_writable net ec c)
  unfolding on_writable
  on_writable-IsEcho law ec c h =
      let d = record c { write_in_progress = false } in
      let same : IsEcho d = record { drained = h.drained; echoed = h.echoed } in
      let wrote = session_write-IsEcho law d same in
      ground (
        arith,
        proceed-IsEcho law (session_write net d).0 (session_write net d).1 wrote,
        proceed-IsEcho law d ec same,
      )

  -- The echo needs the waits: a read completes only where the session reads.
  complete-IsEcho :
      (law : IsAsio net) (w : Wait) (ec : ErrorCode) (c : Connection S)
      → Phase net c
      → IsEcho c
      → IsEcho (complete net w ec c)
  unfolding complete
  complete-IsEcho law Wait.wait_read ec c (inl p) h =
      let d = record c { waits = [] } in
      let same : IsEcho d = record { drained = h.drained; echoed = h.echoed } in
      rw (p.one_wait, complete) (on_readable-IsEcho law ec d p.state_reads same)
  complete-IsEcho law Wait.wait_read ec c (inr p) h = ground arith
  complete-IsEcho law Wait.wait_write ec c (inl p) h = ground arith
  complete-IsEcho law Wait.wait_write ec c (inr (inl p)) h =
      let d = record c { waits = [] } in
      let same : IsEcho d = record { drained = h.drained; echoed = h.echoed } in
      rw (p.one_wait, complete) (on_writable-IsEcho law ec d same)
  complete-IsEcho law Wait.wait_write ec c (inr (inr p)) h = ground arith

  -- A socket as it comes from the acceptor.
  abbrev pub IsFresh : S → Type 0
  IsFresh s = net.taken s ≡ net.sent s

  start-IsEcho : (law : IsAsio net) (s : S) → IsFresh s → IsEcho (start net (new_connection net s))
  unfolding start
  start-IsEcho law s fresh =
      let c = new_connection net s in
      operations-IsEcho (record c { socket = net.non_blocking s })
        (record {
          drained = λ e. refl;
          echoed =
              law.non_blocking_takes_nothing s
              ∙ fresh
              ∙ sym (append-nil _ ∙ law.non_blocking_sends_nothing s);
        })

  -- Every accepted socket of a schedule is fresh.
  abbrev pub IsFreshEvent : Event S → Type 0
  IsFreshEvent (accepted ec socket) = IsFresh socket
  IsFreshEvent (completed i w ec) = Unit {0}

  abbrev pub IsSound : Connection S → Type 0
  IsSound c = Phase net c × IsEcho c

  pub step-IsSound :
      (law : IsAsio net) (s : Server S) (e : Event S)
      → IsFreshEvent e
      → All IsSound s.connections
      → All IsSound (step net s e).connections
  unfolding step
  step-IsSound law s (accepted ec socket) fresh h = ground (
    arith,
    All-append IsSound s.connections (start net (new_connection net socket) ∷ []) h
        ((start-Phase net socket, start-IsEcho law socket fresh), tt),
  )
  step-IsSound law s (completed i w ec) fresh h = elim (Option-cases (get_elem? s.connections i)) [
    | inl gone ↦ rw (gone, step) h
    | inr (c, found) ↦
        let (p, echo) = All-get_elem? IsSound s.connections i c h found in
        rw (found, step)
          (All-set IsSound s.connections i (complete net w ec c)
            (complete-Phase net law w ec c p, complete-IsEcho law w ec c p echo) h)
  ]

  run-IsSound :
      (law : IsAsio net) (s : Server S) (es : List (Event S))
      → All IsFreshEvent es
      → All IsSound s.connections
      → All IsSound (run net s es).connections
  unfolding run
  run-IsSound law s [] fresh h = h
  run-IsSound law s (e ∷ es) (fresh, rest) h =
      run-IsSound law (step net s e) es rest (step-IsSound law s e fresh h)

  -- For every asio that keeps its contract and every sequence of completions in which the accepted
  -- sockets are fresh, each connection of the server has sent what it has read, in order and without
  -- loss, but for the bytes that its session still holds to be written; and it is in the writing
  -- state, or holds no such bytes.
  pub run-echoes :
      (law : IsAsio net) (es : List (Event S)) (i : ℕ) (c : Connection S)
      → All IsFreshEvent es
      → get_elem? (run net (new_server net) es).connections i ≡ some c
      → (net.taken c.socket ≡ net.sent c.socket ++ c.session.write_buffer)
        × ((c.session.state ≡ State.writing) ⊎ (c.session.write_buffer ≡ []))
  unfolding new_server
  run-echoes law es i c fresh found =
      let sound = run-IsSound law (new_server net) es fresh tt in
      let (p, h) = All-get_elem? IsSound _ i c sound found in (h.echoed, ground (arith, h.drained))
