-- ===== src/Proxy/Restinio/Replies.antt =====
-- Which requests the proxy answers, how often, and with what.
use smoll.Base.{
  ℕ, zero, suc, ◌+◌, ◌≡◌, refl, inl, inr, List, [], ◌∷◌, ◌++◌, Bool, true, false, none, some, Bytes,
  ◌==◌, take_at, if◌then◌else◌, arith, Option-cases, Holds, Holds-some,
}
use smoll.Proxy.Restinio.{
  Dht, Effect, respond, begin_chunked, append_chunk, end_chunked, dht_get, dht_put, Server, Event,
  asks_options, asks_info, asks_get, asks_put, finds_value, ends_get, ends_put, step, run,
}

-- 1 where the numbers are the same.
abbrev pub hit : ℕ → ℕ → ℕ
hit id j = if j == id then 1 else 0

module _ {A : Type 0} (key : A → ℕ) (id : ℕ) where
  abbrev pub occurrences : List A → ℕ
  occurrences [] = 0
  occurrences (x ∷ xs) = hit id (key x) + occurrences xs

  abbrev pub IsTaken : List A → A × List A → Type 0
  IsTaken xs p = occurrences xs ≡ hit id (key p.0) + occurrences p.1

  pub occurrences-take_at : (k : ℕ) (xs : List A) → Holds (IsTaken xs) (take_at k xs)
  occurrences-take_at k [] = tt
  occurrences-take_at zero (y ∷ xs) = refl
  occurrences-take_at (suc k) (y ∷ xs) = elim (Option-cases (take_at k xs)) [
    | inl e ↦ rw e tt
    | inr (p, e) ↦
        let taken = Holds-some (IsTaken xs) (take_at k xs) p e (occurrences-take_at k xs) in
        rw e (omega arith)
  ]

-- How often the effects complete a response to the request.
unfoldable pub answers : {H V : Type 0} → ℕ → List (Effect H V) → ℕ
answers id [] = 0
answers id (respond j r ∷ es) = hit id j + answers id es
answers id (end_chunked j ∷ es) = hit id j + answers id es
answers id (begin_chunked j r ∷ es) = answers id es
answers id (append_chunk j b ∷ es) = answers id es
answers id (dht_get j h ∷ es) = answers id es
answers id (dht_put j h v p ∷ es) = answers id es

answers-append :
    {H V : Type 0} (id : ℕ) (xs ys : List (Effect H V))
    → answers id (xs ++ ys) ≡ answers id xs + answers id ys
unfolding answers
answers-append id [] ys = omega arith
answers-append id (respond j r ∷ xs) ys = omega (arith, answers-append id xs ys)
answers-append id (end_chunked j ∷ xs) ys = omega (arith, answers-append id xs ys)
answers-append id (begin_chunked j r ∷ xs) ys = answers-append id xs ys
answers-append id (append_chunk j b ∷ xs) ys = answers-append id xs ys
answers-append id (dht_get j h ∷ xs) ys = answers-append id xs ys
answers-append id (dht_put j h v p ∷ xs) ys = answers-append id xs ys

abbrev pub get_key : ℕ → ℕ
get_key id = id

abbrev pub put_key : {V : Type 0} → ℕ × V → ℕ
put_key p = p.0

-- The callbacks for the request that the node still holds.
unfoldable pub pending : {H V N : Type 0} → ℕ → Server H V N → ℕ
pending id s = occurrences get_key id s.gets + occurrences put_key id s.puts

module _ {H V J N : Type 0} (dht : Dht H V J N) where
  -- A put whose body is there but is not the JSON of a value.
  abbrev pub is_unparsed : Bytes → Bool
  is_unparsed [] = false
  is_unparsed (b ∷ bs) = elim (dht.parse_json (b ∷ bs)) [
    | none ↦ true
    | some root ↦ elim (dht.value_of root) [ none ↦ true | some v ↦ false ]
  ]

  -- Whether the event is the request's arrival.
  unfoldable pub arrivals : ℕ → Event V N → ℕ
  arrivals id (asks_options j) = hit id j
  arrivals id (asks_info j current ip) = hit id j
  arrivals id (asks_get j hash) = hit id j
  arrivals id (asks_put j hash body) = hit id j
  arrivals id (finds_value k v) = 0
  arrivals id (ends_get k) = 0
  arrivals id (ends_put k done) = 0

  -- Whether the event is the arrival of the request as a put of no value.
  unfoldable pub unparsed : ℕ → Event V N → ℕ
  unparsed id (asks_put j hash body) = if is_unparsed body then hit id j else 0
  unparsed id _ = 0

  unfoldable pub total : (Event V N → ℕ) → List (Event V N) → ℕ
  total f [] = 0
  total f (e ∷ es) = f e + total f es

  step-answers :
      (id : ℕ) (s : Server H V N) (e : Event V N)
      → answers id (step dht s e).1 + pending id (step dht s e).0 + unparsed id e
        ≡ arrivals id e + pending id s
  unfolding step answers pending arrivals unparsed
  step-answers id s (asks_options j) = omega arith
  step-answers id s (asks_info j current ip) = ground arith
  step-answers id s (asks_get j hash) = omega arith
  step-answers id s (asks_put j hash []) = omega arith
  step-answers id s (asks_put j hash (b ∷ bs)) = ground arith
  step-answers id s (finds_value k v) = ground arith
  step-answers id s (ends_get k) = elim (Option-cases (take_at k s.gets)) [
    | inl e ↦ rw (e, step) (omega arith)
    | inr (p, e) ↦
        let taken =
          Holds-some (IsTaken get_key id s.gets) _ p e (occurrences-take_at get_key id k s.gets) in
        rw (e, step) (omega arith)
  ]
  step-answers id s (ends_put k true) = elim (Option-cases (take_at k s.puts)) [
    | inl e ↦ rw (e, step) (omega arith)
    | inr (p, e) ↦
        let taken =
          Holds-some (IsTaken put_key id s.puts) _ p e (occurrences-take_at put_key id k s.puts) in
        rw (e, step) (omega arith)
  ]
  step-answers id s (ends_put k false) = elim (Option-cases (take_at k s.puts)) [
    | inl e ↦ rw (e, step) (omega arith)
    | inr (p, e) ↦
        let taken =
          Holds-some (IsTaken put_key id s.puts) _ p e (occurrences-take_at put_key id k s.puts) in
        rw (e, step) (omega arith)
  ]

  -- In every history of requests and of callbacks of the node, for the number of a request: the
  -- responses completed to it, the callbacks for it that the node still holds and its arrivals as a
  -- put whose body is not empty and not the JSON of a value are together as many as its arrivals and the callbacks held at the
  -- start. So no request is answered twice, each is answered once its callback has come, and a put
  -- with such a body is never answered.
  pub run-answers :
      (id : ℕ) (s : Server H V N) (es : List (Event V N))
      → answers id (run dht s es).1 + pending id (run dht s es).0 + total (unparsed id) es
        ≡ total (arrivals id) es + pending id s
  unfolding run total answers
  run-answers id s [] = omega arith
  run-answers id s (e ∷ es) =
      let now = step-answers id s e in
      let later = run-answers id (step dht s e).0 es in
      omega (arith, answers-append id (step dht s e).1 (run dht (step dht s e).0 es).1)
