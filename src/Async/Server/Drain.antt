-- ===== src/Async/Server/Drain.antt =====
-- The echo server sends what it holds, as long as the socket takes bytes.
use smoll.Base.{
  ℕ, zero, suc, ◌≤◌, ◌<◌, ◌≡◌, ◌≢◌, refl, sym, subst, ap, ◌∙◌, ◌⊎◌, inl, inr, true, false, List, [],
  ◌∷◌, ◌++◌, arith, append-nil, append_assoc, take-append-drop, drop, length, length-drop,
}
use smoll.Async.Net.{success, Asio, IsAsio}
use smoll.Async.Server.{
  Wait, Connection, session_write, proceed, operations, on_writable, complete, state_after_write,
  is_positive,
}
use smoll.Async.Server.Waiting.{IsReadArmed, IsWriteArmed}

-- A write of some bytes takes one at least, and without an error.
pub record IsWritable {S : Type 0} (net : Asio S) : Type 0 where
  pub progress : (s : S) (b : List ℕ) → b ≢ [] → 0 < (net.write s b).count
  pub clean : (s : S) (b : List ℕ) → (net.write s b).ec ≡ success

is_positive-true : (n : ℕ) → 0 < n → is_positive n ≡ true
is_positive-true zero h = absurd (omega arith)
is_positive-true (suc n) h = refl

length-positive : (b : List ℕ) → b ≢ [] → 0 < length b
length-positive [] h = absurd (h refl)
length-positive (x ∷ b) h = omega arith

module _ {S : Type 0} (net : Asio S) where
  -- The event loop reports `n` times that the socket can be written to.
  pub write_times : ℕ → Connection S → Connection S
  write_times zero c = c
  write_times (suc n) c = write_times n (complete net Wait.wait_write success c)

  -- The connection waits for what its buffer asks for.
  abbrev Ready : Connection S → Type 0
  Ready c =
      (IsReadArmed net c × (c.session.write_buffer ≡ []))
      ⊎ (IsWriteArmed net c × (c.session.write_buffer ≢ []))

  -- A connection inside a handler, which holds `b`.
  abbrev holding : S → List ℕ → Connection S
  holding socket b = record {
    socket = socket;
    session = record { state = state_after_write b; write_buffer = b };
    read_in_progress = false;
    write_in_progress = false;
    waits = [];
  }

  operations-Ready :
      (socket : S) (b : List ℕ)
      → Ready (operations net (holding socket b))
        × ((operations net (holding socket b)).session.write_buffer ≡ b)
        × ((operations net (holding socket b)).socket ≡ socket)
  unfolding operations
  operations-Ready socket [] = (
    inl (record { state_reads = refl; read_on = refl; write_off = refl; one_wait = refl }, refl),
    refl,
    refl,
  )
  operations-Ready socket (x ∷ b) = (
    inr (
      record { state_writes = refl; read_off = refl; write_on = refl; one_wait = refl },
      (λ e. cc),
    ),
    refl,
    refl,
  )

  complete-holding :
      (writable : IsWritable net) (c : Connection S)
      → IsWriteArmed net c
      → c.session.write_buffer ≢ []
      → complete net Wait.wait_write success c
        ≡ operations net (
            holding
              (net.write c.socket c.session.write_buffer).socket
              (drop (net.write c.socket c.session.write_buffer).count c.session.write_buffer))
  unfolding complete on_writable session_write proceed
  complete-holding writable c h held =
      let b = c.session.write_buffer in
      let some_bytes = is_positive-true _ (writable.progress c.socket b held) in
      rw (h.one_wait, complete, some_bytes, writable.clean c.socket b, h.read_off) refl

  complete_idle :
      (c : Connection S) → IsReadArmed net c → complete net Wait.wait_write success c ≡ c
  unfolding complete
  complete_idle c h = simp (h.one_wait, complete) refl

  nothing_held :
      (c : Connection S)
      → c.session.write_buffer ≡ []
      → net.sent c.socket ≡ net.sent c.socket ++ c.session.write_buffer
  nothing_held c e = sym (ap (λ b. net.sent c.socket ++ b) e ∙ append-nil (net.sent c.socket))

  -- `d` has sent what `c` held.
  abbrev IsDrained : Connection S → Connection S → Type 0
  IsDrained c d =
      IsReadArmed net d
      × (d.session.write_buffer ≡ [])
      × (net.sent d.socket ≡ net.sent c.socket ++ c.session.write_buffer)

  -- What a connection that is ready holds is sent by as many rounds as it holds bytes.
  drains_from :
      (law : IsAsio net) (writable : IsWritable net) (n : ℕ) (c : Connection S)
      → Ready c
      → length c.session.write_buffer ≤ n
      → IsDrained c (write_times n c)
  unfolding write_times
  drains_from law writable zero c (inl h) bound = (h.0, h.1, nothing_held c h.1)
  drains_from law writable zero c (inr h) bound =
      absurd (omega (arith, length-positive c.session.write_buffer h.1))
  drains_from law writable (suc n) c (inl h) bound =
      let none_left : length c.session.write_buffer ≡ 0 = ap length h.1 in
      subst (λ d. IsDrained c (write_times n d)) (sym (complete_idle c h.0))
        (drains_from law writable n c (inl h) (omega arith))
  drains_from law writable (suc n) c (inr h) bound =
      let b = c.session.write_buffer in
      let w = net.write c.socket b in
      let next = operations net (holding w.socket (drop w.count b)) in
      let (ready, left, kept) = operations-Ready w.socket (drop w.count b) in
      let fewer : length next.session.write_buffer ≤ n = rw left (
        omega (
          arith,
          length-drop w.count b,
          writable.progress c.socket b h.1,
          length-positive b h.1,
        )) in
      let (armed, empty, sent) = drains_from law writable n next ready fewer in
      let all : net.sent next.socket ++ next.session.write_buffer ≡ net.sent c.socket ++ b =
        rw (left, kept, law.write_sends c.socket b, append_assoc, take-append-drop) refl in
      subst (λ d. IsDrained c (write_times n d)) (sym (complete-holding writable c h.0 h.1))
        (armed, empty, sent ∙ all)

  -- Where every write of some bytes takes one at least and without an error, a connection of the
  -- server that holds bytes has sent them all, in order, after as many reports that the socket can
  -- be written to as it holds bytes, and after more: its buffer is empty, and it waits to read again.
  pub drains :
      (law : IsAsio net) (writable : IsWritable net) (n : ℕ) (c : Connection S)
      → IsWriteArmed net c
      → c.session.write_buffer ≢ []
      → length c.session.write_buffer ≤ n
      → IsReadArmed net (write_times n c)
        × ((write_times n c).session.write_buffer ≡ [])
        × (net.sent (write_times n c).socket ≡ net.sent c.socket ++ c.session.write_buffer)
  drains law writable n c armed held bound = drains_from law writable n c (inr (armed, held)) bound
