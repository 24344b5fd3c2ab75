-- ===== src/Proxy/Restinio/Program.antt =====
-- proxy_restinio.cpp: the constructor's settings, `running`, and `main` with its loop. What the event
-- loop of the server answers to `stopped()` is the environment's.
use smoll.Base.{
  ℕ, zero, suc, ◌+◌, ◌*◌, ◌≡◌, refl, ap, List, [], ◌∷◌, ◌++◌, Bool, true, false, not, Option, none,
  some, Bytes, codes, replicate, if◌then◌else◌, arith,
}
use smoll.Proxy.Restinio.Lifecycle.{
  Route, Lifecycle, started, stop, rest_threads, create_rest_router,
}

-- Time limits are in seconds.
pub record Settings : Type 0 where
  pub threads : ℕ
  pub address : Bytes
  pub port : ℕ
  pub request_handler : List Route
  pub read_next_http_message_timelimit : ℕ
  pub write_http_response_timelimit : ℕ
  pub handle_request_timeout : ℕ
  pub no_delay : Bool

-- The settings that the server's thread makes, for the number of processors.
unfoldable pub server_settings : ℕ → ℕ → Settings
unfolding rest_threads create_rest_router
server_settings concurrency port = record {
  threads = rest_threads concurrency;
  address = codes "127.0.0.1";
  port = port;
  request_handler = create_rest_router;
  read_next_http_message_timelimit = 10;
  write_http_response_timelimit = 10;
  handle_request_timeout = 10;
  no_delay = true;
}

abbrev pub json_builder : List (Bytes × Bytes)
json_builder = (codes "commentStyle", codes "None") ∷ (codes "indentation", []) ∷ []

-- `running`, where `stopped` is the answer of the event loop.
abbrev pub running : Bool → Bool
running stopped = not stopped

-- The calls of the node.
pub data NodeCall : Type 0 where
  run : ℕ → NodeCall
  bootstrap : Bytes → Bytes → NodeCall

-- The loop, for what the event loop answers at each test: the seconds slept, and whether it ended.
unfoldable pub watch : List Bool → ℕ × Bool
watch [] = (0, false)
watch (stopped ∷ rest) =
    let later = watch rest in if running stopped then (10 + later.0, later.1) else (0, true)

pub record Run : Type 0 where
  pub node_calls : List NodeCall
  pub settings : Settings
  pub seconds : ℕ
  -- What the server is behind its destructor; none while the loop runs.
  pub left : Option Lifecycle

unfoldable pub main : ℕ → List Bool → Run
unfolding server_settings watch stop
main concurrency answers =
    let watched = watch answers in
    record {
      node_calls = run 4444 ∷ bootstrap (codes "bootstrap.jami.net") (codes "4222") ∷ [];
      settings = server_settings concurrency 8080;
      seconds = watched.0;
      left = if watched.1 then some (stop started) else none;
    }

watch_ends :
    (n : ℕ) (later : List Bool) → watch (replicate n false ++ true ∷ later) ≡ (10 * n, true)
unfolding watch
watch_ends zero later = refl
watch_ends (suc n) later = rw (watch_ends n later) (ap (λ k. (k, true)) (omega arith))

watch_goes_on : (n : ℕ) → watch (replicate n false) ≡ (10 * n, false)
unfolding watch
watch_goes_on zero = refl
watch_goes_on (suc n) = rw (watch_goes_on n) (ap (λ k. (k, false)) (omega arith))

-- The program ends at the first test that finds the event loop stopped, ten seconds for each test
-- before it, with the server closed and its thread and the node joined once; without such a test it
-- goes on.
pub main_watches :
    (concurrency n : ℕ) (later : List Bool)
    → ((main concurrency (replicate n false ++ true ∷ later)).seconds ≡ 10 * n)
      × ((main concurrency (replicate n false ++ true ∷ later)).left
          ≡ some (record {
            http_open = false;
            thread_joinable = false;
            thread_joins = 1;
            node_joins = 1;
          }))
      × ((main concurrency (replicate n false)).left ≡ none)
unfolding main
main_watches concurrency n later =
    (rw (watch_ends n later) refl, rw (watch_ends n later) refl, rw (watch_goes_on n) refl)
