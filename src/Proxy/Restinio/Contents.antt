-- ===== src/Proxy/Restinio/Contents.antt =====
-- What the responses of the proxy hold.
use smoll.Base.{
  ℕ, ◌+◌, ◌≡◌, ◌≢◌, refl, ap, sym, append_assoc, ◌∙◌, List, [], ◌∷◌, ◌++◌, Bool, true, false, some,
  Bytes, codes, get_elem?, if◌then◌else◌, arith, All, All-append, ◌==◌, ◌<◌,
}
use smoll.Proxy.Restinio.{
  Dht, ok, bad_gateway, Response, create_response, init_http_response, Effect, respond,
  begin_chunked, append_chunk, end_chunked, dht_get, dht_put, Server, put_failed, info_hash, get,
  on_value, on_get_done, put, on_put_done, Event, asks_options, asks_info, asks_get, asks_put,
  finds_value, ends_get, ends_put, step, run,
}

-- The headers that every response begins with, and the kept connection.
pub record IsDressed (r : Response) : Type 0 where
  pub server : get_elem? r.headers 0 ≡ some (codes "Server", codes "RESTinio")
  pub content_type : get_elem? r.headers 1 ≡ some (codes "Content-Type", codes "application/json")
  pub origin : get_elem? r.headers 2 ≡ some (codes "Access-Control-Allow-Origin", codes "*")
  pub kept : r.keep_alive ≡ true

abbrev pub EffectDressed : {H V : Type 0} → Effect H V → Type 0
EffectDressed (respond id r) = IsDressed r
EffectDressed (begin_chunked id r) = IsDressed r
EffectDressed _ = Unit {0}

module _ {H V J N : Type 0} (dht : Dht H V J N) where
  step-dressed : (s : Server H V N) (e : Event V N) → All EffectDressed (step dht s e).1
  unfolding step
  step-dressed s (asks_options j) = ground arith
  step-dressed s (asks_info j current ip) = ground arith
  step-dressed s (asks_get j hash) = ground arith
  step-dressed s (asks_put j hash []) = ground arith
  step-dressed s (asks_put j hash (b ∷ bs)) = ground arith
  step-dressed s (finds_value k v) = ground arith
  step-dressed s (ends_get k) = ground arith
  step-dressed s (ends_put k true) = ground arith
  step-dressed s (ends_put k false) = ground arith

  -- In every history each response, sent whole or begun, has RESTinio as its first header, JSON as its
  -- content type, every origin allowed, and keeps the connection.
  pub run-dressed : (s : Server H V N) (es : List (Event V N)) → All EffectDressed (run dht s es).1
  unfolding run
  run-dressed s [] = tt
  run-dressed s (e ∷ es) =
      All-append EffectDressed (step dht s e).1 (run dht (step dht s e).0 es).1 (step-dressed s e)
        (run-dressed (step dht s e).0 es)

  -- One JSON text a line.
  unfoldable pub value_lines : List V → Bytes
  value_lines [] = []
  value_lines (v ∷ vs) = (dht.write_value v ++ codes "\n") ++ value_lines vs

  pub value_lines-append :
      (vs ws : List V) → value_lines (vs ++ ws) ≡ value_lines vs ++ value_lines ws
  unfolding value_lines
  value_lines-append [] ws = refl
  value_lines-append (v ∷ vs) ws =
      ap (λ l. (dht.write_value v ++ codes "\n") ++ l) (value_lines-append vs ws)
      ∙ sym (append_assoc (dht.write_value v ++ codes "\n") (value_lines vs) (value_lines ws))

  -- The chunks that the effects append to the request's response.
  unfoldable pub streamed : ℕ → List (Effect H V) → Bytes
  streamed id [] = []
  streamed id (append_chunk j b ∷ es) =
      let later = streamed id es in if j == id then b ++ later else later
  streamed id (respond j r ∷ es) = streamed id es
  streamed id (begin_chunked j r ∷ es) = streamed id es
  streamed id (end_chunked j ∷ es) = streamed id es
  streamed id (dht_get j h ∷ es) = streamed id es
  streamed id (dht_put j h v p ∷ es) = streamed id es

  -- The newest get finds some values and ends.
  abbrev pub answered : List V → List (Event V N)
  answered [] = ends_get 0 ∷ []
  answered (v ∷ vs) = finds_value 0 v ∷ answered vs

  run-answered :
      (id : ℕ) (s : Server H V N) (held : List ℕ) (vs : List V)
      → s.gets ≡ id ∷ held
      → (streamed id (run dht s (answered vs)).1 ≡ value_lines vs)
        × ((run dht s (answered vs)).0 ≡ record s { gets = held })
  unfolding run step streamed value_lines on_value on_get_done
  run-answered id s held [] e = ground arith
  run-answered id s held (v ∷ vs) e = ground (arith, run-answered id s held vs e)

  -- A get asks the node for the hash that its text names, or, where it names none, for the hash of the
  -- text. Where the node then finds any values and ends the get, the response streams the values'
  -- JSON, one to a line, in the order found, and the server is as it was.
  pub get_streams :
      (id : ℕ) (hash : Bytes) (s : Server H V N) (vs : List V)
      → (get_elem? (run dht s (asks_get id hash ∷ answered vs)).1 1
          ≡ some (dht_get id (info_hash dht hash)))
        × (streamed id (run dht s (asks_get id hash ∷ answered vs)).1 ≡ value_lines vs)
        × ((run dht s (asks_get id hash ∷ answered vs)).0 ≡ s)
  unfolding run step get streamed
  get_streams id hash s vs =
      let later = run-answered id (record s { gets = id ∷ s.gets }) s.gets vs refl in
      (refl, later.0, later.1)

  -- A put with a body that is the JSON of a value hands the value to the node under the hash of its text, permanent
  -- exactly where the JSON says so. When the node calls back, the response is 200 with the value's
  -- JSON on a line, or 502 with the error text, and the server is as it was.
  pub put_answered :
      (id : ℕ) (hash body : Bytes) (s : Server H V N) (root : J) (v : V) (done : Bool)
      → body ≢ []
      → dht.parse_json body ≡ some root
      → dht.value_of root ≡ some v
      → let out = run dht s (asks_put id hash body ∷ ends_put 0 done ∷ []) in
        (r : Response) × (out.1
          ≡ dht_put id (info_hash dht hash) v (dht.has_permanent root) ∷ respond id r ∷ [])
        × (r.status ≡ (if done then ok else bad_gateway))
        × (r.body ≡ (if done then dht.write_value v ++ codes "\n" else put_failed))
        × (out.0 ≡ s)
  unfolding run step put on_put_done
  put_answered id hash [] s root v done ne e w = absurd (ne refl)
  put_answered id hash (b ∷ bs) s root v true ne e w = (
    record (init_http_response (create_response ok)) { body = dht.write_value v ++ codes "\n" },
    ground arith,
    refl,
    refl,
    ground arith,
  )
  put_answered id hash (b ∷ bs) s root v false ne e w = (
    record (init_http_response (create_response bad_gateway)) { body = put_failed },
    ground arith,
    refl,
    refl,
    ground arith,
  )

  step-node_info :
      (s : Server H V N) (e : Event V N)
      → 0 < dht.ipv4_good s.node_info + dht.ipv6_good s.node_info
      → (step dht s e).0.node_info ≡ s.node_info
  unfolding step
  step-node_info s (asks_options j) h = refl
  step-node_info s (asks_info j current ip) h = ground arith
  step-node_info s (asks_get j hash) h = refl
  step-node_info s (asks_put j hash []) h = refl
  step-node_info s (asks_put j hash (b ∷ bs)) h = ground arith
  step-node_info s (finds_value k v) h = ground arith
  step-node_info s (ends_get k) h = ground arith
  step-node_info s (ends_put k done) h = ground arith

  -- The statistics that the server holds never change once they name a good node, whatever the node
  -- would report later.
  pub run-node_info :
      (s : Server H V N) (es : List (Event V N))
      → 0 < dht.ipv4_good s.node_info + dht.ipv6_good s.node_info
      → (run dht s es).0.node_info ≡ s.node_info
  unfolding run
  run-node_info s [] h = refl
  run-node_info s (e ∷ es) h =
      let same = step-node_info s e h in run-node_info (step dht s e).0 es (rw same h) ∙ same
