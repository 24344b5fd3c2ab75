-- ===== src/Async/Client/Stages.antt =====
-- The stages of a connection of the client, and that its handlers keep to them.
use smoll.Base.{
  Holds, ℕ, zero, suc, ◌<◌, ◌≡◌, refl, ap, ◌∙◌, ◌⊎◌, inl, inr, Bool, true, false, List, [], ◌∷◌,
  ◌++◌, arith, take, none, some, Bool-cases, Option,
}
use smoll.Async.Net.{ErrorCode, success, is_error, Asio, IsAsio}
use smoll.Async.Server.{State, is_positive}
use smoll.Async.Client.{Wait, Connection, request, on_readable, on_writable, complete, on_resolve}

is_positive-lt : (n : ℕ) → is_positive n ≡ true → 0 < n
is_positive-lt zero e = cc
is_positive-lt (suc n) e = omega arith

take-none : (n : ℕ) (r : List ℕ) → is_positive n ≡ false → take n r ≡ []
take-none zero r e = refl
take-none (suc n) r e = cc

module _ {S : Type 0} (net : Asio S) where
  -- Nothing has been written, and no handler is waiting.
  pub record IsUnsent (c : Connection S) : Type 0 where
    pub writes : c.session.state ≡ State.writing
    pub unbuffered : c.session.write_buffer ≡ []
    pub read_off : c.read_in_progress ≡ false
    pub write_off : c.write_in_progress ≡ false
    pub no_waits : c.waits ≡ []
    pub none_sent : net.sent c.socket ≡ []
    pub none_taken : net.taken c.socket ≡ []

  -- The request waits to be written.
  pub record IsAsking (r : List ℕ) (c : Connection S) : Type 0 where
    pub writes : c.session.state ≡ State.writing
    pub unbuffered : c.session.write_buffer ≡ []
    pub read_off : c.read_in_progress ≡ false
    pub write_on : c.write_in_progress ≡ true
    pub one_wait : c.waits ≡ Wait.to_write r ∷ []
    pub none_sent : net.sent c.socket ≡ []
    pub none_taken : net.taken c.socket ≡ []

  -- Some of the request was written, and one response is read at most.
  pub record HasAsked (r : List ℕ) (c : Connection S) : Type 0 where
    pub count : ℕ
    pub some_sent : 0 < count
    pub prefix_sent : net.sent c.socket ≡ take count r
    pub reads : c.session.state ≡ State.reading
    pub write_off : c.write_in_progress ≡ false
    pub last_wait :
        ((c.waits ≡ Wait.to_read ∷ []) × (c.read_in_progress ≡ true))
        ⊎ ((c.waits ≡ []) × (c.read_in_progress ≡ false))

  abbrev pub Stage : List ℕ → Connection S → Type 0
  Stage r c = IsUnsent c ⊎ IsAsking r c ⊎ HasAsked r c

  request-Stage : (r : List ℕ) (c : Connection S) → Stage r c → Stage r (request net r c)
  unfolding request
  request-Stage r c (inl h) = inr (inl (ground arith))
  request-Stage r c (inr h) = ground arith

  on_writable-Stage :
      (law : IsAsio net) (r : List ℕ) (ec : ErrorCode) (c : Connection S)
      → IsAsking r c
      → Stage r (on_writable net r ec (record c { waits = [] }))
  unfolding on_writable
  on_writable-Stage law r ec c h = elim (Bool-cases (is_error ec)) [
    | inl failed ↦ inl (ground (arith, h.writes, h.unbuffered))
    | inr ready ↦ elim (Bool-cases (is_positive n)) [
      | inl some_bytes ↦ inr (
          inr (record {
            count = n;
            some_sent = is_positive-lt n some_bytes;
            prefix_sent = ground (arith, sends);
            reads = ground (arith, h.unbuffered);
            write_off = ground (arith, h.unbuffered);
            last_wait = inl (ground (arith, h.unbuffered, h.read_off));
          }))
      | inr no_bytes ↦ inl (
          ground (
            arith,
            sends,
            take-none n r no_bytes,
            law.write_takes_nothing c.socket r,
            h.writes,
            h.unbuffered,
          ))
    ]
  ]
    where
      n : ℕ
      n = (net.write c.socket r).count

      sends : net.sent (net.write c.socket r).socket ≡ take n r
      sends = law.write_sends c.socket r ∙ ap (λ b. b ++ take n r) h.none_sent

  on_readable-Stage :
      (law : IsAsio net) (r : List ℕ) (ec : ErrorCode) (c : Connection S)
      → HasAsked r c
      → Stage r (on_readable net ec (record c { waits = [] }))
  unfolding on_readable
  on_readable-Stage law r ec c h = inr (
      inr (record {
        count = h.count;
        some_sent = h.some_sent;
        prefix_sent = ground (arith, law.read_sends_nothing c.socket, h.prefix_sent);
        reads = ground (arith, h.reads);
        write_off = ground (arith, h.write_off);
        last_wait = inr (ground arith);
      }))

  pub complete-Stage :
      (law : IsAsio net) (r : List ℕ) (k : ℕ) (ec : ErrorCode) (c : Connection S)
      → Stage r c
      → Stage r (complete net k ec c)
  unfolding complete
  complete-Stage law r k ec c (inl h) = rw (h.no_waits, complete) (inl h)
  complete-Stage law r zero ec c (inr (inl h)) =
      rw (h.one_wait, complete) (on_writable-Stage law r ec c h)
  complete-Stage law r (suc k) ec c (inr (inl h)) = ground arith
  complete-Stage law r zero ec c (inr (inr h)) = elim (h.last_wait) [
    | inl w ↦ rw (w.0, complete) (on_readable-Stage law r ec c h)
    | inr w ↦ ground arith
  ]
  complete-Stage law r (suc k) ec c (inr (inr h)) = elim (h.last_wait) [
    | inl w ↦ ground arith
    | inr w ↦ ground arith
  ]

  moved-Stage :
      (r : List ℕ) (c : Connection S) (s : S)
      → net.sent s ≡ net.sent c.socket
      → net.taken s ≡ net.taken c.socket
      → Stage r c
      → Stage r (record c { socket = s })
  moved-Stage r c s sent taken (inl h) = inl (ground (arith, h.none_sent, h.none_taken))
  moved-Stage r c s sent taken (inr (inl h)) = inr (inl (ground (arith, h.none_sent)))
  moved-Stage r c s sent taken (inr (inr h)) = inr (
      inr (record {
        count = h.count;
        some_sent = h.some_sent;
        prefix_sent = sent ∙ h.prefix_sent;
        reads = h.reads;
        write_off = h.write_off;
        last_wait = h.last_wait;
      }))

  connected-Stage :
      (law : IsAsio net) (r : List ℕ) (c : Connection S) (o : Option S)
      → net.connect c.socket ≡ o
      → Stage r c
      → Holds (Stage r) (on_resolve net r success true c)
  unfolding on_resolve
  connected-Stage law r c none e h = rw (e, on_resolve) tt
  connected-Stage law r c (some s) e h =
      let sent = law.connect_sends_nothing c.socket s e in
      let taken = law.connect_takes_nothing c.socket s e in
      let moved = moved-Stage r c s sent taken h in
      elim (Bool-cases (net.is_open s)) [
        | inl open_now ↦
            rw (e, on_resolve, open_now) (request-Stage r (record c { socket = s }) moved)
        | inr shut ↦ rw (e, on_resolve, shut) moved
      ]

  pub on_resolve-Stage :
      (law : IsAsio net) (r : List ℕ) (ec : ErrorCode) (b : Bool) (c : Connection S)
      → Stage r c
      → Holds (Stage r) (on_resolve net r ec b c)
  unfolding on_resolve
  on_resolve-Stage law r success true c h = connected-Stage law r c (net.connect c.socket) refl h
  on_resolve-Stage law r ec b c h =
      moved-Stage r c (net.close c.socket) (law.close_sends_nothing c.socket)
        (law.close_takes_nothing c.socket) h

  pub outcome :
      (r : List ℕ) (c : Connection S)
      → Stage r c
      → ((net.sent c.socket ≡ []) × (net.taken c.socket ≡ []))
        ⊎ ((n : ℕ) × (0 < n) × (net.sent c.socket ≡ take n r))
  outcome r c (inl h) = inl (h.none_sent, h.none_taken)
  outcome r c (inr (inl h)) = inl (h.none_sent, h.none_taken)
  outcome r c (inr (inr h)) = inr (h.count, h.some_sent, h.prefix_sent)
