-- ===== src/Async/Posting.antt =====
-- cpp/async/nonblocking/client2.cpp: `Client`, whose requests wait in the queue of its io_context. The
-- resolver, the connection and the blocking calls answer with a record for each request; the event
-- loop runs the handlers that a list of events names. `run_one`, called at the end of a handler, is
-- one more step of the loop.
pub mod Callbacks
pub mod Ids
pub mod Connection
mod Tests
use smoll.Base.{
  ℕ, zero, suc, ◌+◌, ◌%◌, ◌^◌, ◌≡◌, List, [], ◌∷◌, ◌++◌, Bool, true, false, not, ◌&&◌, ◌||◌, Option,
  none, some, Bytes, codes, ◌==◌, take_at, if◌then◌else◌, c_str,
}
use mathlib.Core.Option
use smoll.Async.Net.{ErrorCode, is_error, is_eof}

-- `request` and `respcb`: which callback it is, or `nullptr`.
pub record Request : Type 0 where
  pub text : Bytes
  pub respcb : Option ℕ

-- What the closure of the resolver's handler holds: the id of `conn`, and the request.
pub record Resolving : Type 0 where
  pub conn : ℕ
  pub request : Request

pub record Client : Type 0 where
  pub posted : List Request
  pub resolving : List Resolving
  pub conn_id : ℕ

pub data Effect : Type 0 where
  created closed connected read : ℕ → Effect
  written : ℕ → Bytes → Effect
  called : ℕ → Bytes → Effect

-- What happens to one request: the result of the resolver, whether the first result can be connected
-- to (`connect` throws otherwise), `open()`, and the outcomes of `write` and `read`.
pub record Answer : Type 0 where
  pub resolve_ec : ErrorCode
  pub found : Bool
  pub connects : Bool
  pub opened : Bool
  pub write_ec : ErrorCode
  pub read_ec : ErrorCode
  pub data_read : Bytes

abbrev pub new_client : Client
new_client = record { posted = []; resolving = []; conn_id = 1 }

-- `post_request`.
unfoldable pub post_request : Request → Client → Client
post_request r c = record c { posted = c.posted ++ r ∷ [] }

-- `async_request`: the ids are of type `uint16_t`.
unfoldable pub async_request : Request → Client → Client × List Effect
async_request r c = (
  record c {
    resolving = record { conn = c.conn_id; request = r } ∷ c.resolving;
    conn_id = (c.conn_id + 1) % 2 ^ 16;
  },
  created (c.conn_id) ∷ [],
)

-- `if (respcb) respcb(data.c_str());`
unfoldable pub call_back : Option ℕ → Bytes → List Effect
unfolding c_str
call_back none response = []
call_back (some k) response = called k (c_str response) ∷ []

-- `ec and ec != asio::error::eof`.
abbrev pub is_fatal : ErrorCode → Bool
is_fatal ec = is_error ec && not (is_eof ec)

-- The resolver's handler; `none` is the exception of `connect`.
unfoldable pub on_resolve : Resolving → Answer → Option (List Effect)
unfolding call_back
on_resolve w a =
    if is_error a.resolve_ec || not a.found
    then some (closed (w.conn) ∷ [])
    else if not a.connects
    then none
    else if not a.opened
    then some (connected (w.conn) ∷ [])
    else if is_fatal a.write_ec
    then some (connected (w.conn) ∷ written (w.conn) (w.request.text) ∷ [])
    else if is_fatal a.read_ec
    then some (connected (w.conn) ∷ written (w.conn) (w.request.text) ∷ read (w.conn) ∷ [])
    else some (
        connected (w.conn)
        ∷ written (w.conn) (w.request.text)
        ∷ read (w.conn)
        ∷ call_back w.request.respcb a.data_read)

-- A posted handler is run in the order of the posts, a resolver's handler when its result is there.
pub data Event : Type 0 where
  runs_posted : Event
  resolved : ℕ → Answer → Event

unfoldable pub step : Client → Event → Option (Client × List Effect)
unfolding async_request on_resolve
step c runs_posted = elim (c.posted) [
  | [] ↦ some (c, [])
  | r ∷ rest ↦ some (async_request r (record c { posted = rest }))
]
step c (resolved k a) = elim (take_at k c.resolving) [
  | none ↦ some (c, [])
  | some (w, rest) ↦ Option.map (λ es. (record c { resolving = rest }, es)) (on_resolve w a)
]

pub record Run : Type 0 where
  pub client : Client
  pub effects : List Effect
  pub thrown : Bool

abbrev pub after : List Effect → Run → Run
after es r = record r { effects = es ++ r.effects }

-- `context().run()`, until an exception leaves it.
unfoldable pub run : Client → List Event → Run
unfolding step
run c [] = record { client = c; effects = []; thrown = false }
run c (e ∷ events) = elim (step c e) [
  | none ↦ record { client = c; effects = []; thrown = true }
  | some (d, es) ↦ after es (run d events)
]

-- The text of the request.
unfoldable pub request_text : Bytes → Bytes
request_text target =
    codes "GET "
    ++ (target
        ++ codes
            " HTTP/1.1\r\nHost: 127.0.0.1:8080\r\nAccept: */*\r\nConnection: keep-alive\r\n\r\n")

-- Two requests with a callback each, and one without.
unfoldable pub post_all : Bytes → Client
unfolding post_request request_text
post_all target =
    let r = request_text target in
    post_request (record { text = r; respcb = none })
      (post_request (record { text = r; respcb = some 2 })
        (post_request (record { text = r; respcb = some 1 }) new_client))

-- `main` with its three arguments: what it does, and its exit code.
unfoldable pub main : Bytes → List Event → List Effect × ℕ
unfolding post_all run
main target events = let r = run (post_all target) events in (r.effects, if r.thrown then 1 else 0)

-- How the program ends: the usage message, an exception that nothing catches, or `main`.
pub data Ended : Type 0 where
  usage terminated : Ended
  ended : List Effect × ℕ → Ended

-- `main` on the arguments behind the program's name. The client is made outside of the try block, and
-- `from_string` throws where the first argument is no address.
unfoldable pub program : (Bytes → Bool) → List Event → List Bytes → Ended
unfolding main
program is_address events (ip ∷ port ∷ target ∷ []) =
    if is_address ip then ended (main target events) else terminated
program is_address events args = usage
