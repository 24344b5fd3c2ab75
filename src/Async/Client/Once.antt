-- ===== src/Async/Client/Once.antt =====
-- A connection of the client writes its request at most once, and reads only after it wrote.
use smoll.Base.{
  get_elem?-append_left, get_elem?-append_last, All-imp, append_assoc, Holds, Holds-some, Holds-map,
  map, take_at-All, All, All-append, AllPairs, AllPairs-length, AllPairs-snoc, AllPairs-get_elem?,
  AllPairs-left, AllPairs-set, ℕ, ◌<◌, ◌≡◌, ◌⊎◌, inl, inr, List, [], ◌∷◌, ◌++◌, arith, take,
  get_elem?, set, Option-cases, some, length, take_at, append-nil,
}
use smoll.Async.Net.{Asio, IsAsio}
use smoll.Async.Client.{
  Connection, complete, new_connection, Client, Event, resolved, completed, async_request, send_all,
  new_client, on_resolve, step, run,
}
use smoll.Async.Client.Stages.{Stage, complete-Stage, on_resolve-Stage, outcome}

module _ {S : Type 0} (net : Asio S) where
  -- Between two rounds: each connection is at a stage of its own request, and so is what a pending
  -- resolution will ask for.
  record IsOnce (rs : List (List ℕ)) (cl : Client S) : Type 0 where
    aligned : AllPairs (Stage net) rs cl.connections
    due : All (λ e. get_elem? rs e.0 ≡ some e.1) cl.resolving

  step-IsOnce :
      (law : IsAsio net) (rs : List (List ℕ)) (cl : Client S) (e : Event)
      → IsOnce rs cl
      → Holds (IsOnce rs) (step net cl e)
  unfolding step
  step-IsOnce law rs cl (completed i k ec) h = elim (Option-cases (get_elem? cl.connections i)) [
    | inl gone ↦ rw (gone, step) h
    | inr (c, found) ↦
        let (r, asked) = AllPairs-left (Stage net) rs cl.connections i c h.aligned found in
        let stage = AllPairs-get_elem? (Stage net) rs cl.connections i r c h.aligned asked found in
        rw (found, step)
          (record {
            aligned =
                AllPairs-set (Stage net) rs cl.connections i r (complete net k ec c) asked
                  (complete-Stage net law r k ec c stage) h.aligned;
            due = h.due;
          })
  ]
  step-IsOnce law rs cl (resolved k ec b) h = elim (Option-cases (take_at k cl.resolving)) [
    | inl gone ↦ rw (gone, step) h
    | inr (p, taken) ↦ elim (Option-cases (get_elem? cl.connections p.0.0)) [
      | inl lost ↦ rw (taken, lost, step) h
      | inr (c, found) ↦
          let due =
            Holds-some IsNext (take_at k cl.resolving) p taken
              (take_at-All Due k cl.resolving h.due) in
          let stage =
            AllPairs-get_elem? (Stage net) rs cl.connections p.0.0 p.0.1 c h.aligned due.0 found in
          rw (taken, found, step)
            (Holds-map (Stage net p.0.1) (IsOnce rs)
              (λ d. record { connections = set cl.connections p.0.0 d; resolving = p.1 })
              (on_resolve net p.0.1 ec b c)
              (λ d stage'. record {
                aligned =
                    AllPairs-set (Stage net) rs cl.connections p.0.0 p.0.1 d due.0 stage' h.aligned;
                due = due.1;
              })
              (on_resolve-Stage net law p.0.1 ec b c stage))
    ]
  ]
    where
      Due : ℕ × List ℕ → Type 0
      Due e = get_elem? rs e.0 ≡ some e.1

      IsNext : (ℕ × List ℕ) × List (ℕ × List ℕ) → Type 0
      IsNext q = Due q.0 × All Due q.1

  run-IsOnce :
      (law : IsAsio net) (rs : List (List ℕ)) (cl : Client S) (es : List Event)
      → IsOnce rs cl
      → IsOnce rs (run net cl es)
  unfolding run
  run-IsOnce law rs cl [] h = h
  run-IsOnce law rs cl (e ∷ es) h = elim (Option-cases (step net cl e)) [
    | inl threw ↦ rw (threw, run) h
    | inr (next, went) ↦
        rw (went, run)
          (run-IsOnce law rs next es
            (Holds-some (IsOnce rs) (step net cl e) next went (step-IsOnce law rs cl e h)))
  ]

  abbrev pub IsUntouched : S × List ℕ → Type 0
  IsUntouched p = (net.sent p.0 ≡ []) × (net.taken p.0 ≡ [])

  async_request-IsOnce :
      (rs : List (List ℕ)) (cl : Client S) (s : S) (r : List ℕ)
      → IsUntouched (s, r)
      → IsOnce rs cl
      → IsOnce (rs ++ r ∷ []) (async_request s r cl)
  unfolding async_request
  async_request-IsOnce rs cl s r f h = record {
    aligned =
        AllPairs-snoc (Stage net) rs cl.connections r (new_connection s) (inl (ground arith))
          h.aligned;
    due =
        All-append Due cl.resolving ((length cl.connections, r) ∷ [])
          (All-imp (λ e. get_elem? rs e.0 ≡ some e.1) Due cl.resolving
            (λ e. get_elem?-append_left rs (r ∷ []) e.0 e.1) h.due)
          (
            rw (← AllPairs-length (Stage net) rs cl.connections h.aligned)
                (get_elem?-append_last rs [] r),
            tt,
          );
  }
    where
      Due : ℕ × List ℕ → Type 0
      Due e = get_elem? (rs ++ r ∷ []) e.0 ≡ some e.1

  send_all-IsOnce :
      (rs : List (List ℕ)) (ps : List (S × List ℕ)) (cl : Client S)
      → All IsUntouched ps
      → IsOnce rs cl
      → IsOnce (rs ++ map (λ p. p.1) ps) (send_all ps cl)
  unfolding send_all
  send_all-IsOnce rs [] cl fresh h = rw append-nil h
  send_all-IsOnce rs ((s, r) ∷ ps) cl (f, fresh) h =
      rw (← append_assoc rs (r ∷ []) (map (λ p. p.1) ps)) (
        send_all-IsOnce (rs ++ r ∷ []) ps (async_request s r cl) fresh
          (async_request-IsOnce rs cl s r f h))

  -- Take any requests on untouched sockets and any sequence of completions, in any order and with
  -- any errors, up to an exception. Each connection belongs to the request at its place. It has sent
  -- and read nothing, or what it has sent is the first n bytes of that request, for some n above 0,
  -- and nothing else: no request is written twice, and nothing is read before a write.
  pub run-sends_once :
      (law : IsAsio net) (ps : List (S × List ℕ)) (es : List Event) (i : ℕ) (c : Connection S)
      → All IsUntouched ps
      → get_elem? (run net (send_all ps (new_client S)) es).connections i ≡ some c
      → (r : List ℕ) × (get_elem? (map (λ p. p.1) ps) i ≡ some r)
        × (((net.sent c.socket ≡ []) × (net.taken c.socket ≡ []))
            ⊎ ((n : ℕ) × (0 < n) × (net.sent c.socket ≡ take n r)))
  run-sends_once law ps es i c fresh found =
      let start : IsOnce [] (new_client S) = record { aligned = tt; due = tt } in
      let rs = map (λ (p : S × List ℕ). p.1) ps in
      let cl = run net (send_all ps (new_client S)) es in
      let once =
        run-IsOnce law rs (send_all ps (new_client S)) es
          (send_all-IsOnce [] ps (new_client S) fresh start) in
      let (r, asked) = AllPairs-left (Stage net) rs cl.connections i c once.aligned found in
      (
        r,
        asked,
        outcome net r c
            (AllPairs-get_elem? (Stage net) rs cl.connections i r c once.aligned asked found),
      )
