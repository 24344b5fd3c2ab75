-- ===== src/Proxy/Restinio.antt =====
-- cpp/opendht/dhtproxyserver/proxy_restinio.cpp and .h: `DhtProxyServer`. What a handler does to the
-- outside (responses by the number of their request, calls of the DHT node) is a list of effects;
-- the callbacks that the node keeps are the lists `gets` and `puts`.
pub mod Replies
pub mod Contents
pub mod Lifecycle
pub mod Serving
pub mod Protocol
pub mod Program
pub mod Settled
pub mod Streams
pub mod Received
pub mod Clients
pub mod Delivered
mod Fixtures
mod Tests
use smoll.Base.{
  ℕ, ◌+◌, ◌-◌, ◌%◌, ◌^◌, ◌≡◌, List, [], ◌∷◌, ◌++◌, Bool, true, false, ◌&&◌, Option, none, some,
  Bytes, codes, ltb, ◌==◌, get_elem?, take_at, if◌then◌else◌,
}

-- OpenDHT and jsoncpp: hashes `H`, values `V`, parsed texts `J`, node statistics `N`. A text that is
-- no hash makes an `InfoHash` that tests false: `none`. A parsed text that is no value, such as a list,
-- makes the constructor of the value or `isMember` throw: `none` of `value_of`.
pub record Dht (H V J N : Type 0) : Type 0 where
  pub parse_hash : Bytes → Option H
  pub hash_of : Bytes → H
  pub write_value : V → Bytes
  pub parse_json : Bytes → Option J
  pub value_of : J → Option V
  pub has_permanent : J → Bool
  pub ipv4_good : N → ℕ
  pub ipv6_good : N → ℕ
  pub write_info : N → Bytes → Bytes

pub data Status : Type 0 where
  ok bad_request bad_gateway : Status

pub record Response : Type 0 where
  pub status : Status
  pub headers : List (Bytes × Bytes)
  pub keep_alive : Bool
  pub body : Bytes

-- `request->create_response(status)`.
abbrev pub create_response : Status → Response
create_response status = record { status = status; headers = []; keep_alive = false; body = [] }

-- `response.append_header`.
abbrev pub append_header : Bytes → Bytes → Response → Response
append_header name value r = record r { headers = r.headers ++ (name, value) ∷ [] }

-- `initHttpResponse`.
unfoldable pub init_http_response : Response → Response
init_http_response r =
    let a = append_header (codes "Server") (codes "RESTinio") r in
    let b = append_header (codes "Content-Type") (codes "application/json") a in
    let c = append_header (codes "Access-Control-Allow-Origin") (codes "*") b in
    record c { keep_alive = true }

-- A response is sent whole, or begun, continued by chunks and ended.
pub data Effect (H V : Type 0) : Type 0 where
  respond : ℕ → Response → Effect H V
  begin_chunked : ℕ → Response → Effect H V
  append_chunk : ℕ → Bytes → Effect H V
  end_chunked : ℕ → Effect H V
  dht_get : ℕ → H → Effect H V
  dht_put : ℕ → H → V → Bool → Effect H V

-- The members that change, and the callbacks that the node holds.
pub record Server (H V N : Type 0) : Type 0 where
  pub request_count : ℕ
  pub node_info : N
  pub gets : List ℕ
  pub puts : List (ℕ × V)

abbrev pub missing_params : Bytes
missing_params = codes "{\"err\":\"Missing parameters\"}"

abbrev pub put_failed : Bytes
put_failed = codes "{\"err\":\"Put failed\"}"

module _ {H V J N : Type 0} (dht : Dht H V J N) where
  -- `InfoHash infoHash(text); if (!infoHash) infoHash = InfoHash::get(text);`
  unfoldable pub info_hash : Bytes → H
  info_hash text = elim (dht.parse_hash text) [ none ↦ dht.hash_of text | some h ↦ h ]

  unfoldable pub options : ℕ → Server H V N → Server H V N × List (Effect H V)
  unfolding init_http_response
  options id s =
      let a = init_http_response (create_response ok) in
      let b =
        append_header (codes "Access-Control-Allow-Methods") (codes "OPTIONS, GET, POST, LISTEN")
          a in
      let c = append_header (codes "Access-Control-Allow-Headers") (codes "content-type") b in
      let d = append_header (codes "Access-Control-Max-Age") (codes "86400") c in
      (record s { request_count = (s.request_count + 1) % 2 ^ 64 }, respond id d ∷ [])

  -- `current` is what the node's `getNodeInfo()` would return; `ip` is the remote endpoint.
  unfoldable pub get_node_info : ℕ → N → Bytes → Server H V N → Server H V N × List (Effect H V)
  unfolding init_http_response
  get_node_info id current ip s =
      let info =
        if dht.ipv4_good s.node_info == 0 && dht.ipv6_good s.node_info == 0
        then current
        else s.node_info in
      let r = init_http_response (create_response ok) in
      (
        record s { node_info = info },
        respond id (record r { body = r.body ++ (dht.write_info info ip ++ codes "\n") }) ∷ [],
      )

  -- `get`, and the two callbacks that it gives to the node.
  unfoldable pub get : ℕ → Bytes → Server H V N → Server H V N × List (Effect H V)
  unfolding info_hash init_http_response
  get id hash s = (
    record s { gets = id ∷ s.gets },
    begin_chunked id (init_http_response (create_response ok)) ∷ dht_get id (info_hash hash) ∷ [],
  )

  unfoldable pub on_value : ℕ → V → List (Effect H V)
  on_value id v = append_chunk id (dht.write_value v ++ codes "\n") ∷ []

  unfoldable pub on_get_done : ℕ → List (Effect H V)
  on_get_done id = end_chunked id ∷ []

  -- `put`, up to the call of the node. An exception leaves the handler: restinio closes the connection,
  -- and the request gets no answer.
  unfoldable pub put : ℕ → Bytes → Bytes → Server H V N → Server H V N × List (Effect H V)
  unfolding info_hash init_http_response
  put id hash [] s =
      let r = init_http_response (create_response bad_request) in
      (s, respond id (record r { body = missing_params }) ∷ [])
  put id hash (b ∷ bs) s = elim (dht.parse_json (b ∷ bs)) [
    | none ↦ (s, [])
    | some root ↦ elim (dht.value_of root) [
      | none ↦ (s, [])
      | some v ↦ (
        record s { puts = (id, v) ∷ s.puts },
        dht_put id (info_hash hash) v (dht.has_permanent root) ∷ [],
      )
    ]
  ]

  -- The callback of the node's `put`.
  unfoldable pub on_put_done : ℕ → V → Bool → List (Effect H V)
  unfolding init_http_response
  on_put_done id v true =
      let r = init_http_response (create_response ok) in
      respond id (record r { body = r.body ++ (dht.write_value v ++ codes "\n") }) ∷ []
  on_put_done id v false =
      let r = init_http_response (create_response bad_gateway) in
      respond id (record r { body = put_failed }) ∷ []

-- What may happen next: a request arrives under its number, or the node calls back the `k`th get
-- with a value or its end, or the `k`th put.
pub data Event (V N : Type 0) : Type 0 where
  asks_options : ℕ → Event V N
  asks_info : ℕ → N → Bytes → Event V N
  asks_get : ℕ → Bytes → Event V N
  asks_put : ℕ → Bytes → Bytes → Event V N
  finds_value : ℕ → V → Event V N
  ends_get : ℕ → Event V N
  ends_put : ℕ → Bool → Event V N

module _ {H V J N : Type 0} (dht : Dht H V J N) where
  unfoldable pub step : Server H V N → Event V N → Server H V N × List (Effect H V)
  unfolding options get_node_info get on_value on_get_done put on_put_done
  step s (asks_options id) = options dht id s
  step s (asks_info id current ip) = get_node_info dht id current ip s
  step s (asks_get id hash) = get dht id hash s
  step s (asks_put id hash body) = put dht id hash body s
  step s (finds_value k v) = elim (get_elem? s.gets k) [
    | none ↦ (s, [])
    | some id ↦ (s, on_value dht id v)
  ]
  step s (ends_get k) = elim (take_at k s.gets) [
    | none ↦ (s, [])
    | some (id, rest) ↦ (record s { gets = rest }, on_get_done dht id)
  ]
  step s (ends_put k done) = elim (take_at k s.puts) [
    | none ↦ (s, [])
    | some (entry, rest) ↦ (record s { puts = rest }, on_put_done dht entry.0 entry.1 done)
  ]

  -- The effects of a history, oldest first.
  unfoldable pub run : Server H V N → List (Event V N) → Server H V N × List (Effect H V)
  unfolding step
  run s [] = (s, [])
  run s (e ∷ es) = let (t, now) = step s e in let (u, later) = run t es in (u, now ++ later)
