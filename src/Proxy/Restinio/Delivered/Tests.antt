-- ===== src/Proxy/Restinio/Delivered/Tests.antt =====
-- A get of client.cpp over a network behind which the proxy stands.
use smoll.Base.{
  ℕ, ◌≡◌, refl, List, [], ◌∷◌, append-nil, Option, some, Bytes, codes, drop, arith, ◌⊎◌,
}
use smoll.Async.Net.{ErrorCode, success, eof}
use smoll.Http.Request.Reader.{Message, read_message}
use smoll.Http.Exchange.{finished}
use smoll.Http.Fixtures.{keeper, keeper-IsIncremental, verbs, verbs-IsPlain, host}
use smoll.Http.Program.{Network, got, program}
use smoll.Http.Program.Response.{IsServer}
use smoll.Proxy.Restinio.{Event, finds_value, ends_get, run, step}
use smoll.Proxy.Restinio.Contents.{value_lines}
use smoll.Proxy.Restinio.Streams.{found}
use smoll.Proxy.Restinio.Fixtures.{
  dht, idle, matches, matches-IsExpress, receive, receive-IsRestinioServer, key-IsSegment,
  verbs-IsStandard,
}
use smoll.Proxy.Restinio.Delivered.{IsDelivery, answer, program_gets}

-- One byte of a head, and the body behind another byte.
abbrev frame : Bytes → Bytes × List (Bytes × ErrorCode)
frame body = (codes "H", (b'x' ∷ body, success) ∷ ([], eof) ∷ [])

abbrev content : Bytes → Bytes
content p = drop 2 p

frame-IsDelivery : IsDelivery keeper [] content frame
frame-IsDelivery = record {
  until = λ body. codes "H";
  pieces = λ body. (b'x' ∷ body, success) ∷ [];
  framed = λ body. refl;
  not_empty = λ body. ((λ h. cc), tt);
  finds = λ body. append-nil body;
}

abbrev later : List (Event Bytes ℕ)
later = finds_value 0 (codes "u") ∷ finds_value 0 (codes "v") ∷ ends_get 0 ∷ []

abbrev reply : Option Message → Bytes × List (Bytes × ErrorCode)
reply message = answer dht matches receive frame idle 5 (codes "::1") 2 later message

abbrev proxied : Network Bytes ℕ Bytes
proxied = record host {
  read_until = λ socket mark. some ((reply (read_message socket)).0, socket);
  reads = λ socket. (reply (read_message socket)).1;
}

proxied-IsServer : IsServer proxied [] reply
proxied-IsServer = record {
  after = λ text. text;
  behind = λ text. text;
  takes = λ text. refl;
  heads = λ text. refl;
  sends = λ text. refl;
}

program_gets_example :
    (n : ℕ) × (q : Bytes) × (program proxied verbs keeper []
        (codes "get" ∷ codes "127.0.0.1" ∷ codes "80" ∷ codes "/key" ∷ [])
      ≡ got (record {
        code = 0;
        response = some (record { parser = q; complaints = n; ending = finished });
      }))
    × (((frame-IsDelivery.pieces (codes "u\nv\n") ≡ []) × (q ≡ [])) ⊎ (content q ≡ codes "u\nv\n"))
unfolding found step run value_lines
program_gets_example =
    program_gets dht matches receive frame proxied verbs keeper [] content matches-IsExpress
      receive-IsRestinioServer verbs-IsPlain verbs-IsStandard frame-IsDelivery (codes "127.0.0.1")
      (codes "80") b'k' (codes "ey") (codes "::1") (codes "127.0.0.1") (0 ∷ []) [] idle 5 2 later
      (omega arith) key-IsSegment refl refl refl proxied-IsServer keeper-IsIncremental
