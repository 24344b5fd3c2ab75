-- ===== src/Proxy/Restinio/Settled.antt =====
-- proxy_restinio.cpp where the node ends what it was asked: each request gets its answer.
use smoll.Base.{ℕ, ◌+◌, ◌≡◌, refl, ap, ◌∙◌, List, [], ◌∷◌, ◌++◌, Bool, arith}
use smoll.Proxy.Restinio.{Dht, Server, Event, ends_get, ends_put, step, run}
use smoll.Proxy.Restinio.Replies.{
  answers, pending, total, arrivals, unparsed, run-answers, occurrences, get_key, put_key,
}

module _ {V N : Type 0} where
  abbrev ends_gets : List ℕ → List (Event V N)
  ends_gets [] = []
  ends_gets (g ∷ gs) = ends_get 0 ∷ ends_gets gs

  -- Each put ends as `done` has it.
  abbrev ends_puts : (ℕ × V → Bool) → List (ℕ × V) → List (Event V N)
  ends_puts done [] = []
  ends_puts done (p ∷ ps) = ends_put 0 (done p) ∷ ends_puts done ps

  -- The node ends all gets and puts that it holds.
  abbrev pub settle : {H : Type 0} → (ℕ × V → Bool) → Server H V N → List (Event V N)
  settle done s = ends_gets s.gets ++ ends_puts done s.puts

module _ {H V J N : Type 0} (dht : Dht H V J N) where
  run-append :
      (xs ys : List (Event V N)) (s : Server H V N)
      → (run dht s (xs ++ ys)).0 ≡ (run dht (run dht s xs).0 ys).0
  unfolding run
  run-append [] ys s = refl
  run-append (x ∷ xs) ys s = run-append xs ys (step dht s x).0

  gets-ended :
      (gs : List ℕ) (later : List (Event V N)) (s : Server H V N)
      → s.gets ≡ gs
      → (run dht s (ends_gets gs ++ later)).0 ≡ (run dht (record s { gets = [] }) later).0
  unfolding run step
  gets-ended [] later s e = ap (λ gs. (run dht (record s { gets = gs }) later).0) e
  gets-ended (g ∷ gs) later s e = rw (e, step) (gets-ended gs later (record s { gets = gs }) refl)

  puts-ended :
      (done : ℕ × V → Bool) (ps : List (ℕ × V)) (s : Server H V N)
      → s.puts ≡ ps
      → (run dht s (ends_puts done ps)).0 ≡ record s { puts = [] }
  unfolding run step
  puts-ended done [] s e = ap (λ ps. record s { puts = ps }) e
  puts-ended done (p ∷ ps) s e = rw (e, step) (puts-ended done ps (record s { puts = ps }) refl)

  settled :
      (done : ℕ × V → Bool) (s : Server H V N)
      → (run dht s (settle done s)).0 ≡ record s { gets = []; puts = [] }
  settled done s =
      gets-ended s.gets (ends_puts done s.puts) s refl
      ∙ puts-ended done s.puts (record s { gets = [] }) refl

  total-append :
      (f : Event V N → ℕ) (xs ys : List (Event V N))
      → total dht f (xs ++ ys) ≡ total dht f xs + total dht f ys
  unfolding total
  total-append f [] ys = omega arith
  total-append f (x ∷ xs) ys = omega (arith, total-append f xs ys)

  -- A count that leaves the ends out.
  record IsOfRequests (f : Event V N → ℕ) : Type 0 where
    no_get : (k : ℕ) → f (ends_get k) ≡ 0
    no_put : (k : ℕ) (b : Bool) → f (ends_put k b) ≡ 0

  total-ends_puts :
      (f : Event V N → ℕ) (done : ℕ × V → Bool) (ps : List (ℕ × V))
      → IsOfRequests f
      → total dht f (ends_puts done ps) ≡ 0
  unfolding total
  total-ends_puts f done [] law = refl
  total-ends_puts f done (p ∷ ps) law =
      omega (arith, law.no_put 0 (done p), total-ends_puts f done ps law)

  total-settle :
      (f : Event V N → ℕ) (done : ℕ × V → Bool) (gs : List ℕ) (ps : List (ℕ × V))
      → IsOfRequests f
      → total dht f (ends_gets gs ++ ends_puts done ps) ≡ 0
  unfolding total
  total-settle f done [] ps law = total-ends_puts f done ps law
  total-settle f done (g ∷ gs) ps law = omega (arith, law.no_get 0, total-settle f done gs ps law)

  total-requests :
      (f : Event V N → ℕ) (done : ℕ × V → Bool) (es : List (Event V N)) (s : Server H V N)
      → IsOfRequests f
      → total dht f (es ++ settle done s) ≡ total dht f es
  total-requests f done es s law =
      omega (arith, total-append f es (settle done s), total-settle f done s.gets s.puts law)

  arrivals-IsOfRequests : (id : ℕ) → IsOfRequests (arrivals dht id)
  unfolding arrivals
  arrivals-IsOfRequests id = record { no_get = λ k. refl; no_put = λ k b. refl }

  unparsed-IsOfRequests : (id : ℕ) → IsOfRequests (unparsed dht id)
  unfolding unparsed
  unparsed-IsOfRequests id = record { no_get = λ k. refl; no_put = λ k b. refl }

  -- Take any history from a server that holds no callback for a request. When the node then ends all
  -- the gets and puts that it holds, each put with any success, it holds nothing any more, and the
  -- request has got as many answers as it had arrivals, those as a put whose body is no value left
  -- out.
  pub run-settles :
      (done : ℕ × V → Bool) (id : ℕ) (s : Server H V N) (es : List (Event V N))
      → pending id s ≡ 0
      → let last = run dht s (es ++ settle done (run dht s es).0) in
        (last.0.gets ≡ [])
        × (last.0.puts ≡ [])
        × (answers id last.1 + total dht (unparsed dht id) es ≡ total dht (arrivals dht id) es)
  unfolding pending
  run-settles done id s es h =
      let t = (run dht s es).0 in
      let ends = es ++ settle done t in
      let rest : (run dht s ends).0 ≡ record t { gets = []; puts = [] } =
        run-append es (settle done t) s ∙ settled done t in
      let gets = ap (λ (u : Server H V N). u.gets) rest in
      let puts = ap (λ (u : Server H V N). u.puts) rest in
      (
        gets,
        puts,
        omega (
          arith,
          run-answers dht id s ends,
          total-requests (arrivals dht id) done es t (arrivals-IsOfRequests id),
          total-requests (unparsed dht id) done es t (unparsed-IsOfRequests id),
          ap (occurrences get_key id) gets,
          ap (occurrences put_key id) puts,
        ),
      )
