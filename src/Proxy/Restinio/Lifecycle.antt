-- ===== src/Proxy/Restinio/Lifecycle.antt =====
-- proxy_restinio.cpp: the number of server threads, `stop` with the destructor, and the router.
-- server_reply_by_parts.cpp computes its threads in the same way.
use smoll.Base.{
  ℕ, zero, suc, ◌+◌, ◌-◌, ◌%◌, ◌^◌, ◌≤◌, ◌<◌, ◌≡◌, refl, List, [], ◌∷◌, Bool, true, false, Option,
  none, some, Bytes, codes, ltb, if◌then◌else◌, arith, Lacks,
}

-- `maxThreads > 1 ? maxThreads : 1`, for `hardware_concurrency() - 1` in an unsigned int.
unfoldable pub rest_threads : ℕ → ℕ
rest_threads concurrency =
    let max_threads = (concurrency + 2 ^ 32 - 1) % 2 ^ 32 in
    if ltb 1 max_threads then max_threads else 1

-- A server has one thread at least. On a machine of known concurrency it has no more threads than
-- there are processors, and leaves one to the node where there are two or more. Where the concurrency
-- is not known, which the standard library reports as 0, it has 2 ^ 32 - 1 threads.
pub rest_threads_bounds :
    (concurrency : ℕ)
    → 0 < concurrency
    → concurrency < 2 ^ 32
    → (1 ≤ rest_threads concurrency)
      × (rest_threads concurrency ≤ concurrency)
      × (rest_threads (suc concurrency) ≤ concurrency)
      × (rest_threads 0 ≡ 2 ^ 32 - 1)
unfolding rest_threads
rest_threads_bounds concurrency h k = (ground arith, ground arith, ground arith, refl)

pub record Lifecycle : Type 0 where
  pub http_open : Bool
  pub thread_joinable : Bool
  pub thread_joins : ℕ
  pub node_joins : ℕ

-- After the constructor.
abbrev pub started : Lifecycle
started = record { http_open = true; thread_joinable = true; thread_joins = 0; node_joins = 0 }

-- `stop`, to which the destructor comes down.
unfoldable pub stop : Lifecycle → Lifecycle
stop l =
    let closed = record l { http_open = false } in
    if l.thread_joinable
    then record closed {
      thread_joinable = false;
      thread_joins = l.thread_joins + 1;
      node_joins = l.node_joins + 1;
    }
    else closed

unfoldable pub stop_times : ℕ → Lifecycle → Lifecycle
unfolding stop
stop_times zero l = l
stop_times (suc n) l = stop_times n (stop l)

stop_times-stopped :
    (n : ℕ) (l : Lifecycle) → l.http_open ≡ false → l.thread_joinable ≡ false → stop_times n l ≡ l
unfolding stop_times
stop_times-stopped zero l h j = refl
stop_times-stopped (suc n) l h j =
    let same : stop l ≡ l = ground arith in rw same (stop_times-stopped n l h j)

-- However often `stop` is called before the destructor calls it, the HTTP server is closed, and the
-- thread and the node are joined exactly once.
pub stop_once :
    (n : ℕ)
    → stop_times (suc n) started
      ≡ record { http_open = false; thread_joinable = false; thread_joins = 1; node_joins = 1 }
unfolding stop_times
stop_once n =
    stop_times-stopped n
      (record { http_open = false; thread_joinable = false; thread_joins = 1; node_joins = 1 }) refl
      refl

-- The methods that the router tells apart.
pub data Method : Type 0 where
  method_options method_get method_post method_other : Method

pub data Handler : Type 0 where
  to_options to_node_info to_get to_put : Handler

pub record Route : Type 0 where
  pub method : Method
  pub pattern_text : Bytes
  pub handler : Handler

abbrev pub root : Bytes
root = codes "/"

abbrev pub hash_pattern : Bytes
hash_pattern = codes "/:hash"

-- `createRestRouter`, in the order of the calls.
unfoldable pub create_rest_router : List Route
create_rest_router =
    record { method = method_options; pattern_text = root; handler = to_options }
    ∷ record { method = method_get; pattern_text = root; handler = to_node_info }
    ∷ record { method = method_get; pattern_text = hash_pattern; handler = to_get }
    ∷ record { method = method_post; pattern_text = hash_pattern; handler = to_put }
    ∷ []

abbrev pub same_method : Method → Method → Bool
same_method method_options method_options = true
same_method method_get method_get = true
same_method method_post method_post = true
same_method method_other method_other = true
same_method _ _ = false

-- `matches pattern path` is restinio's: the value of the pattern's parameter, if the path fits.
module _ (matches : Bytes → Bytes → Option Bytes) where
  -- The first route that fits takes the request.
  unfoldable pub dispatch : List Route → Method → Bytes → Option (Handler × Bytes)
  dispatch [] m path = none
  dispatch (r ∷ rs) m path =
      if same_method r.method m
      then elim (matches r.pattern_text path) [
        | none ↦ dispatch rs m path
        | some hash ↦ some (r.handler, hash)
      ]
      else dispatch rs m path

  -- What restinio documents: a literal fits itself alone, and a parameter takes one nonempty segment.
  pub record IsExpress : Type 0 where
    pub root_fits : matches root root ≡ some []
    pub root_only : (c : ℕ) (s : Bytes) → matches root (b'/' ∷ c ∷ s) ≡ none
    pub hash_fits :
        (c : ℕ) (s : Bytes)
        → Lacks b'/' (c ∷ s)
        → matches hash_pattern (b'/' ∷ c ∷ s) ≡ some (c ∷ s)
    pub hash_only : matches hash_pattern root ≡ none

  -- The root answers OPTIONS and GET, a hash of one segment answers GET and POST with that hash, and
  -- nothing else is routed: no POST to the root, no OPTIONS to a hash, no other method to either.
  pub dispatch-create_rest_router :
      (c : ℕ) (s : Bytes)
      → IsExpress
      → Lacks b'/' (c ∷ s)
      → (dispatch create_rest_router method_options root ≡ some (to_options, []))
        × (dispatch create_rest_router method_get root ≡ some (to_node_info, []))
        × (dispatch create_rest_router method_get (b'/' ∷ c ∷ s) ≡ some (to_get, c ∷ s))
        × (dispatch create_rest_router method_post (b'/' ∷ c ∷ s) ≡ some (to_put, c ∷ s))
        × (dispatch create_rest_router method_post root ≡ none)
        × (dispatch create_rest_router method_options (b'/' ∷ c ∷ s) ≡ none)
        × (dispatch create_rest_router method_other root ≡ none)
        × (dispatch create_rest_router method_other (b'/' ∷ c ∷ s) ≡ none)
  unfolding dispatch create_rest_router
  dispatch-create_rest_router c s law h = (
    rw (law.root_fits),
    rw (law.root_fits),
    rw (law.root_only c s, law.hash_fits c s h),
    rw (law.hash_fits c s h),
    rw (law.hash_only),
    rw (law.root_only c s),
    refl,
    refl,
  )
