-- ===== src/Proxy/Restinio/Protocol.antt =====
-- The order of what the proxy writes to one request: a whole response, or a head, chunks and an end.
use smoll.Base.{
  ℕ, zero, suc, ◌+◌, ◌≡◌, ◌≤◌, refl, ap, inl, inr, List, [], ◌∷◌, ◌++◌, Bool, true, false, Option,
  none, some, ◌==◌, take_at, get_elem?, if◌then◌else◌, arith, Option-cases, Holds, Holds-some,
}
use mathlib.Core.Option.{some-injective, none-ne-some}
use smoll.Proxy.Restinio.{
  Dht, Effect, respond, begin_chunked, append_chunk, end_chunked, dht_get, dht_put, Server, Event,
  asks_options, asks_info, asks_get, asks_put, finds_value, ends_get, ends_put, step, run, on_value,
  on_get_done, on_put_done,
}
use smoll.Proxy.Restinio.Replies.{
  hit, occurrences, occurrences-take_at, IsTaken, get_key, put_key, pending, arrivals, total,
}

-- What the response to a request has come to.
pub data Wire : Type 0 where
  fresh streaming answered : Wire

-- The next effect that concerns the response; none is one that is out of order.
abbrev pub whole : Wire → Option Wire
whole fresh = some answered
whole _ = none

abbrev pub head : Wire → Option Wire
head fresh = some streaming
head _ = none

abbrev pub chunk : Wire → Option Wire
chunk streaming = some streaming
chunk _ = none

abbrev pub last : Wire → Option Wire
last streaming = some answered
last _ = none

unfoldable pub follow : {H V : Type 0} → ℕ → Wire → Effect H V → Option Wire
follow id w (respond j r) = if j == id then whole w else some w
follow id w (begin_chunked j r) = if j == id then head w else some w
follow id w (append_chunk j b) = if j == id then chunk w else some w
follow id w (end_chunked j) = if j == id then last w else some w
follow id w (dht_get j h) = some w
follow id w (dht_put j h v p) = some w

unfoldable pub follow_all : {H V : Type 0} → ℕ → Wire → List (Effect H V) → Option Wire
unfolding follow
follow_all id w [] = some w
follow_all id w (e ∷ es) = elim (follow id w e) [ none ↦ none | some w' ↦ follow_all id w' es ]

-- The callbacks of gets that the node holds for the request.
abbrev pub held : Wire → ℕ
held streaming = 1
held _ = 0

-- A result that is there, and fits.
abbrev pub Reaches : {A : Type 0} → (A → Type 0) → Option A → Type 0
Reaches P none = ⊥
Reaches P (some a) = P a

-- The callbacks that the node holds for the request, and its arrivals to come, for each state.
abbrev Fits : Wire → ℕ → ℕ → ℕ → Type 0
Fits fresh gets puts more = (gets ≡ 0) × (puts + more ≤ 1)
Fits streaming gets puts more = (gets ≡ 1) × (puts ≡ 0) × (more ≡ 0)
Fits answered gets puts more = (gets ≡ 0) × (puts ≡ 0) × (more ≡ 0)

occurrences-get_elem? :
    (id k : ℕ) (xs : List ℕ) → Holds (λ j. hit id j ≤ occurrences get_key id xs) (get_elem? xs k)
occurrences-get_elem? id k [] = tt
occurrences-get_elem? id zero (x ∷ xs) = omega arith
occurrences-get_elem? id (suc k) (x ∷ xs) = elim (Option-cases (get_elem? xs k)) [
  | inl e ↦ rw e tt
  | inr (j, e) ↦
      let there =
        Holds-some (λ j. hit id j ≤ occurrences get_key id xs) _ j e
          (occurrences-get_elem? id k xs) in
      rw e (omega arith)
]

Reaches-some :
    {A : Type 0} (P : A → Type 0) (o : Option A) → Reaches P o → (a : A) × (o ≡ some a) × P a
Reaches-some P none h = absurd h
Reaches-some P (some a) h = (a, refl, h)

follow_all-append :
    {H V : Type 0} (id : ℕ) (w w' : Wire) (xs ys : List (Effect H V))
    → follow_all id w xs ≡ some w'
    → follow_all id w (xs ++ ys) ≡ follow_all id w' ys
unfolding follow_all
follow_all-append id w w' [] ys h = ap (λ x. follow_all id x ys) (some-injective w w' h)
follow_all-append id w w' (x ∷ xs) ys h = elim (Option-cases (follow id w x)) [
  | inl e ↦ absurd (none-ne-some w' (rw (e, follow_all) at h))
  | inr (v, e) ↦ rw (e, follow_all) (follow_all-append id v w' xs ys (rw (e, follow_all) at h))
]

module _ {H V J N : Type 0} (dht : Dht H V J N) (id : ℕ) where
  abbrev ServerFits : Server H V N → Wire → ℕ → Type 0
  ServerFits s w more = Fits w (occurrences get_key id s.gets) (occurrences put_key id s.puts) more

  -- The node calls back a get that it holds, ends it, and calls back a put.
  chunk-Fits :
      (s : Server H V N) (w : Wire) (j : ℕ) (v : V) (more : ℕ)
      → ServerFits s w (0 + more)
      → hit id j ≤ occurrences get_key id s.gets
      → Reaches (λ w'. ServerFits s w' more) (follow_all id w (on_value dht j v))
  unfolding follow_all on_value
  chunk-Fits s fresh j v more h there = ground arith
  chunk-Fits s streaming j v more h there = ground arith
  chunk-Fits s answered j v more h there = ground arith

  end-Fits :
      (s : Server H V N) (w : Wire) (j : ℕ) (rest : List ℕ) (more : ℕ)
      → ServerFits s w (0 + more)
      → IsTaken get_key id s.gets (j, rest)
      → Reaches
          (λ w'. ServerFits (record s { gets = rest }) w' more)
          (follow_all id w (on_get_done dht j))
  unfolding follow_all on_get_done
  end-Fits s fresh j rest more h taken = ground arith
  end-Fits s streaming j rest more h taken = ground arith
  end-Fits s answered j rest more h taken = ground arith

  put-Fits :
      (s : Server H V N) (w : Wire) (j : ℕ) (v : V) (rest : List (ℕ × V)) (done : Bool) (more : ℕ)
      → ServerFits s w (0 + more)
      → IsTaken put_key id s.puts ((j, v), rest)
      → Reaches
          (λ w'. ServerFits (record s { puts = rest }) w' more)
          (follow_all id w (on_put_done dht j v done))
  unfolding follow_all on_put_done
  put-Fits s fresh j v rest true more h taken = ground arith
  put-Fits s fresh j v rest false more h taken = ground arith
  put-Fits s streaming j v rest true more h taken = ground arith
  put-Fits s streaming j v rest false more h taken = ground arith
  put-Fits s answered j v rest true more h taken = ground arith
  put-Fits s answered j v rest false more h taken = ground arith

  step-Fits :
      (s : Server H V N) (w : Wire) (e : Event V N) (more : ℕ)
      → ServerFits s w (arrivals dht id e + more)
      → Reaches (λ w'. ServerFits (step dht s e).0 w' more) (follow_all id w (step dht s e).1)
  unfolding step follow_all arrivals
  step-Fits s fresh (asks_options j) more h = ground arith
  step-Fits s streaming (asks_options j) more h = ground arith
  step-Fits s answered (asks_options j) more h = ground arith
  step-Fits s fresh (asks_info j current ip) more h = ground arith
  step-Fits s streaming (asks_info j current ip) more h = ground arith
  step-Fits s answered (asks_info j current ip) more h = ground arith
  step-Fits s fresh (asks_get j hash) more h = ground arith
  step-Fits s streaming (asks_get j hash) more h = ground arith
  step-Fits s answered (asks_get j hash) more h = ground arith
  step-Fits s fresh (asks_put j hash []) more h = ground arith
  step-Fits s streaming (asks_put j hash []) more h = ground arith
  step-Fits s answered (asks_put j hash []) more h = ground arith
  step-Fits s fresh (asks_put j hash (b ∷ bs)) more h = ground arith
  step-Fits s streaming (asks_put j hash (b ∷ bs)) more h = ground arith
  step-Fits s answered (asks_put j hash (b ∷ bs)) more h = ground arith
  step-Fits s w (finds_value k v) more h = elim (Option-cases (get_elem? s.gets k)) [
    | inl e ↦ rw (e, step) (ground arith)
    | inr (j, e) ↦
        rw (e, step)
          (chunk-Fits s w j v more h (
            Holds-some (λ j. hit id j ≤ occurrences get_key id s.gets) _ j e
              (occurrences-get_elem? id k s.gets)))
  ]
  step-Fits s w (ends_get k) more h = elim (Option-cases (take_at k s.gets)) [
    | inl e ↦ rw (e, step) (ground arith)
    | inr ((j, rest), e) ↦
        rw (e, step)
          (end-Fits s w j rest more h (
            Holds-some (IsTaken get_key id s.gets) _ (j, rest) e
              (occurrences-take_at get_key id k s.gets)))
  ]
  step-Fits s w (ends_put k done) more h = elim (Option-cases (take_at k s.puts)) [
    | inl e ↦ rw (e, step) (ground arith)
    | inr (((j, v), rest), e) ↦
        rw (e, step)
          (put-Fits s w j v rest done more h (
            Holds-some (IsTaken put_key id s.puts) _ ((j, v), rest) e
              (occurrences-take_at put_key id k s.puts)))
  ]

  run-Fits :
      (es : List (Event V N)) (s : Server H V N) (w : Wire)
      → ServerFits s w (total dht (arrivals dht id) es)
      → Reaches (λ w'. ServerFits (run dht s es).0 w' 0) (follow_all id w (run dht s es).1)
  unfolding run total follow_all
  run-Fits [] s w h = h
  run-Fits (e ∷ es) s w h =
      let (w', now, fits) = Reaches-some _ _ (step-Fits s w e (total dht (arrivals dht id) es) h) in
      rw (follow_all-append id w w' (step dht s e).1 (run dht (step dht s e).0 es).1 now)
        (run-Fits es (step dht s e).0 w' fits)

  Fits-gets : (w : Wire) (gets puts : ℕ) → Fits w gets puts 0 → gets ≡ held w
  Fits-gets fresh gets puts h = h.0
  Fits-gets streaming gets puts h = h.0
  Fits-gets answered gets puts h = h.0

  -- In any history in which the number of a request arrives once at most, from a server that holds no
  -- callback for it: what the proxy has written to the request is nothing, a whole response, a head
  -- with chunks behind it, or such a head with its end. Nothing is written to it behind a whole
  -- response or an end, and the node holds one callback of a get for it while the chunks come in, and
  -- none before and after.
  pub run-follows :
      (s : Server H V N) (es : List (Event V N))
      → pending id s ≡ 0
      → total dht (arrivals dht id) es ≤ 1
      → (w : Wire) × (follow_all id fresh (run dht s es).1 ≡ some w)
        × (occurrences get_key id (run dht s es).0.gets ≡ held w)
  unfolding pending
  run-follows s es none_held once =
      let fits : ServerFits s fresh (total dht (arrivals dht id) es) = (omega arith, omega arith) in
      let (w, order, last_fits) = Reaches-some _ _ (run-Fits es s fresh fits) in
      (w, order, Fits-gets w _ _ last_fits)
