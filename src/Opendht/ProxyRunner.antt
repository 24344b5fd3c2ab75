-- ===== src/Opendht/ProxyRunner.antt =====
-- cpp/opendht/proxy_runner.cpp: the calls that set up a node and a proxy of OpenDHT, and the loop.
use smoll.Base.{ℕ, ◌*◌, List, [], ◌∷◌, Bool, true, Bytes, codes}

pub data Call : Type 0 where
  set_push_notification_token : Bytes → Call
  -- The port and whether the node has a thread of its own.
  run : ℕ → Bool → Call
  -- The port, and the push server.
  proxy_server : ℕ → Bytes → Call

-- The calls, and the seconds slept behind some rounds of the loop, which has no end.
unfoldable pub main : ℕ → List Call × ℕ
main rounds = (
  set_push_notification_token (codes "devicekey")
      ∷ run 8888 true
      ∷ proxy_server 8080 (codes "127.0.0.1:8090")
      ∷ [],
  10 * rounds,
)
