-- ===== src/Proxy/Restinio/Clients.antt =====
-- restinio/client.cpp against the proxy: what the proxy does on the requests that the client writes.
use smoll.Base.{
  ℕ, ◌≡◌, refl, ap, ◌∙◌, List, [], ◌∷◌, ◌++◌, Option, none, some, Bytes, codes, get_elem?, arith,
}
use smoll.Http.Request.{ok, crlf}
use smoll.Http.Request.Reader.{Message, read_message, OneLine}
use smoll.Http.Request.Lines.{sent_body}
use smoll.Http.Arguments.{Restinio, requested, main}
use smoll.Http.Arguments.Sent.{IsPlain, intended, main-message}
use smoll.Proxy.Restinio.{
  Dht, Effect, dht_get, dht_put, Server, info_hash, Event, asks_get, asks_put, step, get, run,
}
use smoll.Proxy.Restinio.Contents.{value_lines, value_lines-append, streamed}
use smoll.Proxy.Restinio.Lifecycle.{Method, IsExpress}
use smoll.Proxy.Restinio.Serving.{serve, serve-get, serve-post, put-asks}
use smoll.Proxy.Restinio.Streams.{found, run-streamed}
use smoll.Proxy.Restinio.Received.{
  version-standard, get-known, post-known, received-get, IsSegment, IsRestinioServer, IsStandard,
  sent-encoding, sent-length,
}

module _ {H V J N : Type 0} (dht : Dht H V J N) (matches : Bytes → Bytes → Option Bytes)
    (receive : Message → Option (Method × Bytes × Bytes)) where
  -- A request's bytes reach the proxy from an address.
  unfoldable pub arrive : Server H V N → ℕ → Bytes → N → Bytes → Server H V N × List (Effect H V)
  arrive s id ip current bytes = elim (read_message bytes) [
    | none ↦ (s, [])
    | some m ↦ elim (receive m) [
      | none ↦ (s, [])
      | some (method, path, body) ↦ serve dht matches s (record {
        id = id;
        method = method;
        path = path;
        body = body;
        ip = ip;
        current = current;
      })
    ]
  ]

module _ {H V J N M : Type 0} (dht : Dht H V J N) (matches : Bytes → Bytes → Option Bytes)
    (receive : Message → Option (Method × Bytes × Bytes)) (lib : Restinio M) where
  module _ (law : IsExpress matches) (server : IsRestinioServer receive) (plain : IsPlain lib)
      (standard : IsStandard lib) (addr port_text : Bytes) (one_addr : OneLine addr) where
    -- The requests of the client come to the proxy as just those.
    client_gets :
        (c : ℕ) (text : Bytes) (id : ℕ) (ip : Bytes) (current : N)
        → IsSegment (c ∷ text)
        → (bytes : Bytes) × (main lib (codes "get" ∷ addr ∷ port_text ∷ (b'/' ∷ c ∷ text) ∷ [])
            ≡ requested (ok bytes))
          × ((s : Server H V N)
              → arrive dht matches receive s id ip current bytes
                ≡ step dht s (asks_get id (c ∷ text)))
    unfolding arrive
    client_gets c text id ip current seg =
        let (bytes, made, read) =
          main-message lib (codes "get") addr port_text (b'/' ∷ c ∷ text) [] lib.http_get plain
            one_addr (omega arith, seg.one_line) (omega arith, seg.no_space)
            (get-known lib standard addr port_text) in
        (
          bytes,
          made,
          λ s.
              rw
                (
                  read,
                  received-get lib standard addr port_text receive server (c ∷ text) seg,
                  arrive,
                )
                (serve-get dht matches id c text [] ip current s law seg.no_slash),
        )

    client_posts :
        (c b : ℕ) (text bs : Bytes) (id : ℕ) (ip : Bytes) (current : N)
        → IsSegment (c ∷ text)
        → (bytes : Bytes) × (main lib
              (codes "post" ∷ addr ∷ port_text ∷ (b'/' ∷ c ∷ text) ∷ (b ∷ bs) ∷ [])
            ≡ requested (ok bytes))
          × ((s : Server H V N)
              → arrive dht matches receive s id ip current bytes
                ≡ step dht s (asks_put id (c ∷ text) (b ∷ bs)))
    unfolding arrive sent_body
    client_posts c b text bs id ip current seg =
        let (bytes, made, read) =
          main-message lib (codes "post") addr port_text (b'/' ∷ c ∷ text) ((b ∷ bs) ∷ [])
            lib.http_post plain one_addr (omega arith, seg.one_line) (omega arith, seg.no_space)
            (post-known lib standard addr port_text) in
        let received =
          server.takes_post (intended lib addr port_text (b'/' ∷ c ∷ text) (b ∷ bs) lib.http_post)
            (c ∷ text) (b ∷ bs) crlf seg standard.post_text
            (version-standard lib standard addr port_text lib.http_post (b'/' ∷ c ∷ text)) refl
            (sent-encoding lib standard addr port_text (b ∷ bs))
            (sent-length lib standard addr port_text b bs) refl in
        (
          bytes,
          made,
          λ s.
              rw (read, received, arrive)
                (serve-post dht matches id c text (b ∷ bs) ip current s law seg.no_slash),
        )

    asks-get :
        (id : ℕ) (hash : Bytes) (s : Server H V N)
        → get_elem? (step dht s (asks_get id hash)).1 1 ≡ some (dht_get id (info_hash dht hash))
    unfolding step get
    asks-get id hash s = refl

    streams-found :
        (id : ℕ) (hash : Bytes) (t : Server H V N) (later : List (Event V N)) (v : V)
        (before after : List V)
        → found dht id t (asks_get id hash ∷ later) ≡ before ++ v ∷ after
        → let asked = step dht t (asks_get id hash) in
          streamed dht id (asked.1 ++ (run dht asked.0 later).1)
          ≡ value_lines dht before ++ ((dht.write_value v ++ codes "\n") ++ value_lines dht after)
    unfolding run value_lines
    streams-found id hash t later v before after e =
        run-streamed dht id (asks_get id hash ∷ later) t
        ∙ ap (value_lines dht) e
        ∙ value_lines-append dht before (v ∷ after)

    -- Take restinio's server, router and texts as documented, and an address and two segments that are
    -- not empty, which name the same hash. client.cpp run with "post", the first segment behind a
    -- slash and a body that is the JSON of a value, and run again with "get" and the second, write two requests. When
    -- the first reaches the proxy, the proxy hands the body's value to the node. When the second
    -- reaches it after any other requests and callbacks, the proxy asks the node for that very hash.
    -- Whatever comes to the proxy behind it, where the values that the node finds for the get have the
    -- posted one among them, the response holds the value's JSON on a line of its own, with the others
    -- before and after it.
    pub clients_meet :
        (c d b : ℕ) (text other bs ip : Bytes) (put_id get_id : ℕ) (current : N) (root : J) (v : V)
        (s : Server H V N) (between later : List (Event V N)) (before after : List V)
        → IsSegment (c ∷ text)
        → IsSegment (d ∷ other)
        → dht.parse_json (b ∷ bs) ≡ some root
        → dht.value_of root ≡ some v
        → info_hash dht (d ∷ other) ≡ info_hash dht (c ∷ text)
        → found dht get_id
            (run dht (step dht s (asks_put put_id (c ∷ text) (b ∷ bs))).0 between).0
            (asks_get get_id (d ∷ other) ∷ later)
          ≡ before ++ v ∷ after
        → (put_bytes : Bytes) × (get_bytes : Bytes) × (main lib
              (codes "post" ∷ addr ∷ port_text ∷ (b'/' ∷ c ∷ text) ∷ (b ∷ bs) ∷ [])
            ≡ requested (ok put_bytes))
          × (main lib (codes "get" ∷ addr ∷ port_text ∷ (b'/' ∷ d ∷ other) ∷ [])
              ≡ requested (ok get_bytes))
          × (let posted = arrive dht matches receive s put_id ip current put_bytes in
              let t = (run dht posted.0 between).0 in
              let asked = arrive dht matches receive t get_id ip current get_bytes in
              (posted.1 ≡ dht_put put_id (info_hash dht (c ∷ text)) v (dht.has_permanent root) ∷ [])
              × (get_elem? asked.1 1 ≡ some (dht_get get_id (info_hash dht (c ∷ text))))
              × (streamed dht get_id (asked.1 ++ (run dht asked.0 later).1)
                  ≡ value_lines dht before
                    ++ ((dht.write_value v ++ codes "\n") ++ value_lines dht after)))
    clients_meet c d b text other bs ip put_id get_id current root v s between later before after
          seg other_seg e w same finds =
        let (put_bytes, put_made, puts) = client_posts c b text bs put_id ip current seg in
        let (get_bytes, get_made, gets) = client_gets d other get_id ip current other_seg in
        (
          put_bytes,
          get_bytes,
          put_made,
          get_made,
          rw (puts, gets)
              (
                put-asks dht matches put_id (c ∷ text) (b ∷ bs) root v s (cc) e w,
                asks-get get_id (d ∷ other) _ ∙ ap (λ h. some (dht_get get_id h)) same,
                streams-found get_id (d ∷ other) _ later v before after finds,
              ),
        )
