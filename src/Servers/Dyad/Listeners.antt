-- ===== src/Servers/Dyad/Listeners.antt =====
-- cpp/server/httpserver_dyad.cpp: the constructor, the handlers, and which of them dyad calls. A stream
-- is a number. An event goes to the listeners of its stream and of its kind, in the order in which
-- they were added.
pub mod Answers
use smoll.Base.{
  ℕ, ◌≡◌, List, [], ◌∷◌, ◌++◌, Bool, true, false, ◌&&◌, Bytes, ◌==◌, if◌then◌else◌, map,
}
use smoll.Servers.Dyad.{on_line}

-- The kinds of DYAD_EVENT that have a handler, and all others.
pub data Kind : Type 0 where
  error accept listen data_event line other : Kind

abbrev pub is_kind : Kind → Kind → Bool
is_kind error error = true
is_kind accept accept = true
is_kind listen listen = true
is_kind data_event data_event = true
is_kind line line = true
is_kind other other = true
is_kind k l = false

pub data Handler : Type 0 where
  calls_on_error calls_on_accept calls_on_listen calls_on_data calls_on_line : Handler

pub record Event : Type 0 where
  pub kind : Kind
  pub stream : ℕ
  pub remote : ℕ
  pub text : Bytes

pub record Listener : Type 0 where
  pub stream : ℕ
  pub kind : Kind
  pub handler : Handler

-- What was asked of dyad: the listeners, the texts written, and the streams ended. The last two are
-- in order.
pub record HttpServer : Type 0 where
  pub listeners : List Listener
  pub written : List (ℕ × Bytes)
  pub ended : List ℕ

abbrev pub add_listener : ℕ → Kind → Handler → HttpServer → HttpServer
add_listener stream kind handler s = record s {
  listeners = s.listeners ++ record { stream = stream; kind = kind; handler = handler } ∷ [];
}

-- The constructor of `HttpServer`, on its new stream.
unfoldable pub new_server : ℕ → HttpServer
new_server stream = add_listener stream listen calls_on_listen (
    add_listener stream accept calls_on_accept (
      add_listener stream error calls_on_error
        (record { listeners = []; written = []; ended = [] })))

abbrev pub addressed : ℕ → List Bytes → List (ℕ × Bytes)
addressed stream texts = map (λ text. (stream, text)) texts

-- The handlers. `onListen` and `onError` only print.
unfoldable pub handle : Handler → Event → HttpServer → HttpServer
unfolding on_line
handle calls_on_error e s = s
handle calls_on_listen e s = s
handle calls_on_accept e s = add_listener e.remote line calls_on_line s
handle calls_on_data e s = record s { ended = s.ended ++ e.stream ∷ [] }
handle calls_on_line e s = record s {
  written = s.written ++ addressed e.stream (on_line e.text).written;
}

abbrev pub hears : Listener → Event → Bool
hears l e = l.stream == e.stream && is_kind l.kind e.kind

-- One event, given to those of the listeners that hear it.
unfoldable pub emit : List Listener → Event → HttpServer → HttpServer
unfolding handle
emit [] e s = s
emit (l ∷ ls) e s = emit ls e (if hears l e then handle l.handler e s else s)

-- The events of `dyad_update`, one after the other.
unfoldable pub run : HttpServer → List Event → HttpServer
unfolding emit
run s [] = s
run s (e ∷ es) = run (emit s.listeners e s) es
