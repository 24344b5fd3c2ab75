-- ===== src/Proxy/Restinio/Serving.antt =====
-- proxy_restinio.cpp from the router to the answers: the handler that a request comes to.
use smoll.Base.{ℕ, ◌≡◌, ◌≢◌, refl, ap, List, [], ◌∷◌, Option, none, some, Bytes, Lacks}
use smoll.Proxy.Restinio.{
  Dht, Effect, dht_put, Server, info_hash, Event, asks_options, asks_info, asks_get, asks_put, step,
  put,
}
use smoll.Proxy.Restinio.Lifecycle.{
  Method, method_get, method_post, Handler, to_options, to_node_info, to_get, to_put, dispatch,
  create_rest_router, IsExpress, dispatch-create_rest_router,
}

-- A request under its number, with the address it comes from and what the node's `getNodeInfo` would
-- return when it comes.
pub record Request (N : Type 0) : Type 0 where
  pub id : ℕ
  pub method : Method
  pub path : Bytes
  pub body : Bytes
  pub ip : Bytes
  pub current : N

-- The members that the routes are bound to.
abbrev pub bound : {V N : Type 0} → Handler × Bytes → Request N → Event V N
bound (to_options, hash) q = asks_options q.id
bound (to_node_info, hash) q = asks_info q.id q.current q.ip
bound (to_get, hash) q = asks_get q.id hash
bound (to_put, hash) q = asks_put q.id hash q.body

module _ {H V J N : Type 0} (dht : Dht H V J N) (matches : Bytes → Bytes → Option Bytes) where
  -- What no route takes, restinio turns down by itself.
  unfoldable pub serve : Server H V N → Request N → Server H V N × List (Effect H V)
  serve s q = elim (dispatch matches create_rest_router q.method q.path) [
    | none ↦ (s, [])
    | some taken ↦ step dht s (bound taken q)
  ]

  serve-routed :
      (q : Request N) (s : Server H V N) (taken : Handler × Bytes)
      → dispatch matches create_rest_router q.method q.path ≡ some taken
      → serve s q ≡ step dht s (bound taken q)
  unfolding serve
  serve-routed q s taken e =
      ap (λ r. elim r [ none ↦ (s, []) | some taken ↦ step dht s (bound taken q) ]) e

  pub serve-get :
      (id c : ℕ) (text body ip : Bytes) (current : N) (s : Server H V N)
      → IsExpress matches
      → Lacks b'/' (c ∷ text)
      → serve s (record {
        id = id;
        method = method_get;
        path = b'/' ∷ c ∷ text;
        body = body;
        ip = ip;
        current = current;
      })
        ≡ step dht s (asks_get id (c ∷ text))
  serve-get id c text body ip current s law h =
      serve-routed _ s (to_get, c ∷ text) (dispatch-create_rest_router matches c text law h).2

  pub serve-post :
      (id c : ℕ) (text body ip : Bytes) (current : N) (s : Server H V N)
      → IsExpress matches
      → Lacks b'/' (c ∷ text)
      → serve s (record {
        id = id;
        method = method_post;
        path = b'/' ∷ c ∷ text;
        body = body;
        ip = ip;
        current = current;
      })
        ≡ step dht s (asks_put id (c ∷ text) body)
  serve-post id c text body ip current s law h =
      serve-routed _ s (to_put, c ∷ text) (dispatch-create_rest_router matches c text law h).3

  pub put-asks :
      (id : ℕ) (hash body : Bytes) (root : J) (v : V) (s : Server H V N)
      → body ≢ []
      → dht.parse_json body ≡ some root
      → dht.value_of root ≡ some v
      → (step dht s (asks_put id hash body)).1
        ≡ dht_put id (info_hash dht hash) v (dht.has_permanent root) ∷ []
  unfolding step put
  put-asks id hash [] root v s ne e w = absurd (ne refl)
  put-asks id hash (b ∷ bs) root v s ne e w = rw (step, put, e, w)
