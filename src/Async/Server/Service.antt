-- ===== src/Async/Server/Service.antt =====
-- What the echo server promises: each connection is a relay, and the server a set of relays, with no
-- sessions, buffers, waits or flags. `view` is what is seen of a connection from outside.
use smoll.Base.{
  ℕ, ◌≡◌, Bool, true, false, List, [], ◌∷◌, ◌++◌, map, get_elem?, set, none, some, take,
  if◌then◌else◌,
}
use smoll.Async.Net.{Asio, is_error}
use smoll.Async.Server.{Wait, Connection, Server, Event, accepted, completed, step}

-- All that came in on a connection and all that went out, and whether it is still served.
pub record Relay : Type 0 where
  pub received : List ℕ
  pub sent : List ℕ
  pub served : Bool

-- The way in which a report concerns a relay.
pub data Way : Type 0 where
  reading writing : Way

-- Bytes come in only where all has gone out; what goes out is the front of what is owed.
pub data RelayStep (r s : Relay) : Way → Type 0 where
  receive :
      (bytes : List ℕ)
      → r.served ≡ true
      → r.received ≡ r.sent
      → s.received ≡ r.received ++ bytes
      → s.sent ≡ r.sent
      → s.served ≡ true
      → RelayStep r s reading
  send :
      (owed : List ℕ) (n : ℕ)
      → r.served ≡ true
      → r.received ≡ r.sent ++ owed
      → s.received ≡ r.received
      → s.sent ≡ r.sent ++ take n owed
      → s.served ≡ true
      → RelayStep r s writing

-- What one report may do to its relay: nothing, a step of its way, or that and the relay's end.
pub data Turn (r s : Relay) (way : Way) : Type 0 where
  rests : r ≡ s → Turn r s way
  steps : RelayStep r s way → Turn r s way
  ends : (t : Relay) → RelayStep r t way → s ≡ record t { served = false } → Turn r s way

-- What is reported to the server, without the sockets and the error codes.
pub data Label : Type 0 where
  joins refused : Label
  reports : ℕ → Way → Label

-- A relay that joins owes nothing and is served. A report concerns the relay of its number alone, and
-- nobody where there is no such relay.
pub data ServiceStep (rs ss : List Relay) : Label → Type 0 where
  join :
      (r : Relay)
      → r.received ≡ r.sent
      → r.served ≡ true
      → ss ≡ rs ++ r ∷ []
      → ServiceStep rs ss joins
  refuse : ss ≡ rs → ServiceStep rs ss refused
  nobody : (i : ℕ) (way : Way) → get_elem? rs i ≡ none → ss ≡ rs → ServiceStep rs ss (reports i way)
  move :
      (i : ℕ) (way : Way) (r s : Relay)
      → get_elem? rs i ≡ some r
      → Turn r s way
      → ss ≡ set rs i s
      → ServiceStep rs ss (reports i way)

-- Every step of a history is one of the service, from the relays that the step before has left.
abbrev pub IsServed : List Relay → List (Label × List Relay) → Type 0
IsServed rs [] = Unit {0}
IsServed rs ((label, ss) ∷ rest) = ServiceStep rs ss label × IsServed ss rest

-- A connection is served as long as a handler waits for it.
abbrev pub has_waits : List Wait → Bool
has_waits [] = false
has_waits (w ∷ ws) = true

abbrev pub way_of : Wait → Way
way_of Wait.wait_read = reading
way_of Wait.wait_write = writing

abbrev pub label_of : {S : Type 0} → Event S → Label
label_of (accepted ec socket) = if is_error ec then refused else joins
label_of (completed i w ec) = reports i (way_of w)

module _ {S : Type 0} (net : Asio S) where
  -- The bytes that crossed the socket, and whether it is served.
  unfoldable pub view : Connection S → Relay
  view c = record {
    received = net.taken c.socket;
    sent = net.sent c.socket;
    served = has_waits c.waits;
  }

  -- The connections, in the order of their acceptance.
  unfoldable pub relays : Server S → List Relay
  relays s = map view s.connections

  -- What is seen of a run: the relays behind each report.
  unfoldable pub history : Server S → List (Event S) → List (Label × List Relay)
  unfolding relays
  history s [] = []
  history s (e ∷ es) = (label_of e, relays (step net s e)) ∷ history (step net s e) es
