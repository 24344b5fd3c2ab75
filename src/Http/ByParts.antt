-- ===== src/Http/ByParts.antt =====
-- cpp/restinio/server_reply_by_parts.cpp: the number of threads, the route, and the handler that answers
-- in chunks. restinio puts the head on the wire with the first `flush`, each chunk with the next one,
-- and the mark of the end with `done`.
use smoll.Base.{
  ℕ, ◌+◌, ◌-◌, ◌%◌, ◌^◌, ◌<◌, ◌≡◌, refl, List, [], ◌∷◌, ◌++◌, Bool, true, false, ◌&&◌, Option, none,
  some, Bytes, codes, ltb, if◌then◌else◌, same_text, arith,
}

-- `hardware_concurrency() - 1` in 32 bits, and the choice behind it.
unfoldable pub pool_threads : ℕ → ℕ
pool_threads concurrency =
    let max_threads = (concurrency + 2 ^ 32 - 1) % 2 ^ 32 in
    if ltb 1 max_threads then max_threads else 1

pub record Settings : Type 0 where
  pub threads : ℕ
  pub address : Bytes
  pub port : ℕ
  pub read_next_http_message_timelimit : ℕ
  pub write_http_response_timelimit : ℕ
  pub handle_request_timeout : ℕ
  pub no_delay : Bool

-- `handle_request_timeout`, in seconds.
abbrev pub handle_request_timeout : ℕ
handle_request_timeout = 1

-- The settings that the server's thread makes, for the number of processors.
unfoldable pub server_settings : ℕ → ℕ → Settings
unfolding pool_threads
server_settings concurrency port = record {
  threads = pool_threads concurrency;
  address = codes "0.0.0.0";
  port = port;
  read_next_http_message_timelimit = 10;
  write_http_response_timelimit = 1;
  handle_request_timeout = handle_request_timeout;
  no_delay = true;
}

-- `main`: the settings of its server, and the seconds that it has slept behind some rounds of its loop,
-- which has no end.
unfoldable pub main : ℕ → ℕ → Settings × ℕ
unfolding server_settings
main concurrency rounds = (server_settings concurrency 8080, rounds)

-- The route table: whether the handler is called.
unfoldable pub routes_to_get : Bytes → Bytes → Bool
routes_to_get method path = same_text method (codes "GET") && same_text path (codes "/")

-- What the client has: nothing, or the head and the bytes of the chunks, and whether it was told that
-- they are all.
pub record Wire : Type 0 where
  pub headers : Option (List (Bytes × Bytes))
  pub content : Bytes
  pub ended : Bool

pub record Response : Type 0 where
  pub fields : List (Bytes × Bytes)
  pub keep_alive : Bool
  pub pending : Bytes
  pub wire : Wire
  pub seconds : ℕ

-- `create_response`, with the field that the handler removes again.
abbrev pub created : Response
created = record {
  fields = (codes "Content-Length", codes "0") ∷ [];
  keep_alive = false;
  pending = [];
  wire = record { headers = none; content = []; ended = false };
  seconds = 0;
}

-- `init_http_resp`.
unfoldable pub init_http_resp : Response → Response
init_http_resp r = record r {
  fields =
      r.fields
      ++ (codes "Server", codes "RESTinio") ∷ (codes "Access-Control-Allow-Origin", codes "*") ∷ [];
  keep_alive = true;
}

unfoldable pub remove_from : Bytes → List (Bytes × Bytes) → List (Bytes × Bytes)
remove_from name [] = []
remove_from name (f ∷ fs) =
    let rest = remove_from name fs in if same_text f.0 name then rest else f ∷ rest

-- The calls on the response, and the sleep.
pub data Act : Type 0 where
  remove_field append_chunk : Bytes → Act
  flush done : Act
  sleep_for : ℕ → Act

abbrev pub head_sent : Response → Option (List (Bytes × Bytes))
head_sent r = elim (r.wire.headers) [ none ↦ some r.fields | some fields ↦ some fields ]

unfoldable pub act : Act → Response → Response
unfolding remove_from
act (remove_field name) r = record r { fields = remove_from name r.fields }
act (append_chunk part) r = record r { pending = r.pending ++ part }
act flush r = record r {
  pending = [];
  wire = record {
    headers = head_sent r;
    content = r.wire.content ++ r.pending;
    ended = r.wire.ended;
  };
}
act done r = record r {
  pending = [];
  wire = record { headers = head_sent r; content = r.wire.content ++ r.pending; ended = true };
}
act (sleep_for n) r = record r { seconds = r.seconds + n }

unfoldable pub play : List Act → Response → Response
unfolding act
play [] r = r
play (a ∷ acts) r = play acts (act a r)

-- `Server::get`.
abbrev pub get_acts : List Act
get_acts =
    remove_field (codes "Content-Length")
    ∷ flush
    ∷ sleep_for 2
    ∷ append_chunk (codes "i like")
    ∷ flush
    ∷ sleep_for 2
    ∷ append_chunk (codes " waffles!")
    ∷ flush
    ∷ sleep_for 2
    ∷ done
    ∷ []

unfoldable pub get : Response
unfolding init_http_resp play
get = play get_acts (init_http_resp created)

-- The client gets both parts, in order, without a Content-Length, but only after six seconds.
get_whole : get ≡ record {
  fields = get.fields;
  keep_alive = true;
  pending = [];
  wire = record {
    headers = some (
        (codes "Server", codes "RESTinio") ∷ (codes "Access-Control-Allow-Origin", codes "*") ∷ []);
    content = codes "i like waffles!";
    ended = true;
  };
  seconds = 6;
}
unfolding get same_text
get_whole = refl

get_late : handle_request_timeout < get.seconds
unfolding get
get_late = omega arith
