-- ===== src/Proxy/Restinio/Tests.antt =====
-- The proxy on a small DHT whose hashes, values and JSON are texts: the theorems at concrete inputs.
use smoll.Base.{
  ℕ, ◌+◌, ◌≡◌, refl, List, [], ◌∷◌, ◌++◌, true, false, some, Bytes, codes, get_elem?, arith,
}
use smoll.Proxy.Restinio.{
  dht_get, dht_put, info_hash, Event, asks_options, asks_info, asks_get, asks_put, finds_value,
  ends_get, ends_put, run, step,
}
use smoll.Proxy.Restinio.Protocol.{Wire, fresh, follow_all, held, run-follows}
use smoll.Proxy.Restinio.Replies.{
  occurrences, get_key, answers, pending, total, unparsed, arrivals, run-answers,
}
use smoll.Proxy.Restinio.Contents.{value_lines, streamed}
use smoll.Proxy.Restinio.Fixtures.{
  dht, idle, matches, matches-IsExpress, receive, receive-IsRestinioServer, key-IsSegment,
  named_key-IsSegment, verbs-IsStandard,
}
use smoll.Proxy.Restinio.Settled.{settle, run-settles}
use smoll.Http.Fixtures.{verbs, verbs-IsPlain}
use smoll.Http.Request.{ok}
use smoll.Http.Arguments.{main, requested}
use smoll.Proxy.Restinio.Clients.{arrive, clients_meet}
use smoll.Proxy.Restinio.Streams.{found}

abbrev history : List (Event Bytes ℕ)
history =
    asks_options 1
    ∷ asks_get 2 (codes "key")
    ∷ asks_put 3 (codes "key") (codes "!")
    ∷ finds_value 0 (codes "v")
    ∷ ends_get 0
    ∷ asks_info 4 5 (codes "::1")
    ∷ []

unparsed_put_unanswered : answers 3 (run dht idle history).1 ≡ 0
unfolding run answers
unparsed_put_unanswered = refl

get_answered_once : answers 2 (run dht idle history).1 ≡ 1
unfolding run answers
get_answered_once = refl

run-answers_example :
    answers 3 (run dht idle history).1
      + pending 3 (run dht idle history).0
      + total dht (unparsed dht 3) history
    ≡ total dht (arrivals dht 3) history + pending 3 idle
run-answers_example = run-answers dht 3 idle history

abbrev between : List (Event Bytes ℕ)
between = ends_put 0 true ∷ asks_options 4 ∷ []

run-follows_example :
    (w : Wire) × (follow_all 2 fresh (run dht idle history).1 ≡ some w)
    × (occurrences get_key 2 (run dht idle history).0.gets ≡ held w)
unfolding pending total arrivals
run-follows_example = run-follows dht 2 idle history refl (omega arith)

chunks_then_end : follow_all 2 fresh (run dht idle history).1 ≡ some Wire.answered
unfolding run follow_all
chunks_then_end = refl

-- The node finds a value for each of two gets, by turns.
abbrev by_turns : List (Event Bytes ℕ)
by_turns =
    finds_value 0 (codes "u")
    ∷ asks_get 6 (codes "z")
    ∷ finds_value 0 (codes "w")
    ∷ finds_value 1 (codes "v")
    ∷ ends_get 1
    ∷ []

-- client.cpp posts a value under a key, and gets it under the hash's own text.
clients_meet_example :
    (put_bytes : Bytes) × (get_bytes : Bytes) × (main verbs
        (codes "post" ∷ codes "::1" ∷ codes "80" ∷ codes "/key" ∷ codes "v" ∷ [])
      ≡ requested (ok put_bytes))
    × (main verbs (codes "get" ∷ codes "::1" ∷ codes "80" ∷ codes "/~key" ∷ [])
        ≡ requested (ok get_bytes))
    × (let posted = arrive dht matches receive idle 3 (codes "::1") 2 put_bytes in
        let asked =
          arrive dht matches receive (run dht posted.0 between).0 5 (codes "::1") 2 get_bytes in
        (posted.1 ≡ dht_put 3 (codes "~key") (codes "v") false ∷ [])
        × (get_elem? asked.1 1 ≡ some (dht_get 5 (codes "~key")))
        × (streamed dht 5 (asked.1 ++ (run dht asked.0 by_turns).1) ≡ codes "u\nv\n"))
unfolding info_hash value_lines found step run
clients_meet_example =
    clients_meet dht matches receive verbs matches-IsExpress receive-IsRestinioServer verbs-IsPlain
      verbs-IsStandard (codes "::1") (codes "80") (omega arith) b'k' b'~' b'v' (codes "ey")
      (codes "key") [] (codes "::1") 3 5 2 (codes "v") (codes "v") idle between by_turns
      (codes "u" ∷ []) [] key-IsSegment named_key-IsSegment refl refl refl refl

-- A get and a put are open when the node ends them, the put without success. The other puts hold no
-- value: the one does not parse, the other is a list.
abbrev open_ended : List (Event Bytes ℕ)
open_ended =
    asks_get 2 (codes "key")
    ∷ asks_put 3 (codes "key") (codes "v")
    ∷ asks_put 3 (codes "key") (codes "!")
    ∷ asks_put 3 (codes "key") (codes "[1]")
    ∷ []

run-settles_example :
    let last = run dht idle (open_ended ++ settle (λ p. false) (run dht idle open_ended).0) in
    (last.0.gets ≡ [])
    × (last.0.puts ≡ [])
    × (answers 3 last.1 + total dht (unparsed dht 3) open_ended
        ≡ total dht (arrivals dht 3) open_ended)
run-settles_example = run-settles dht (λ p. false) 3 idle open_ended (unfold pending in refl)
