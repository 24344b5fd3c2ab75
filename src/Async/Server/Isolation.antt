-- ===== src/Async/Server/Isolation.antt =====
-- The connections of the echo server do not disturb one another.
use smoll.Base.{
  ℕ, zero, suc, ◌+◌, ◌≡◌, ◌≢◌, refl, sym, subst, ap, ◌∙◌, inl, inr, true, false, Option, none, some,
  List, [], ◌∷◌, ◌++◌, arith, get_elem?, length, length-append, length-set, get_elem?_ge,
  get_elem?-ext, get_elem?-append_left, get_elem?-append_last, get_elem?-set_same,
  get_elem?-set_other, Option-cases, Bool-cases, ◌==◌, ==_iff, if◌then◌else◌,
}
use mathlib.Core.Option
use mathlib.Core.Option.{none-ne-some}
use smoll.Async.Net.{ErrorCode, is_error, Asio}
use smoll.Async.Server.{
  Wait, Connection, new_connection, start, complete, Server, Event, accepted, completed, new_server,
  step, run,
}

module _ {S : Type 0} where
  -- What is reported to the `i`th connection.
  unfoldable pub own : ℕ → List (Event S) → List (Wait × ErrorCode)
  own i [] = []
  own i (accepted ec socket ∷ es) = own i es
  own i (completed j w ec ∷ es) = let rest = own i es in if j == i then (w, ec) ∷ rest else rest

  -- The socket of the next connection but `k`, which is the `i`th of the server, and what is reported
  -- to it from then on.
  unfoldable pub life : ℕ → ℕ → List (Event S) → Option (S × List (Wait × ErrorCode))
  unfolding own
  life i k [] = none
  life i zero (accepted ec socket ∷ es) =
      let later = life i zero es in if is_error ec then later else some (socket, own i es)
  life i (suc k) (accepted ec socket ∷ es) = life i (if is_error ec then suc k else k) es
  life i k (completed j w ec ∷ es) = life i k es

module _ {S : Type 0} (net : Asio S) where
  -- A connection alone, with the reports that it gets.
  unfoldable pub serve_one : List (Wait × ErrorCode) → Connection S → Connection S
  serve_one [] c = c
  serve_one ((w, ec) ∷ reports) c = serve_one reports (complete net w ec c)

  unfoldable pub live : S × List (Wait × ErrorCode) → Connection S
  unfolding serve_one
  live (socket, reports) = serve_one reports (start net (new_connection net socket))

  accepting-step : (s : Server S) (e : Event S) → s.accepting ≡ 1 → (step net s e).accepting ≡ 1
  unfolding step
  accepting-step s (accepted ec socket) one = ground arith
  accepting-step s (completed i w ec) one = ground arith

  kept_by_accept :
      (s : Server S) (i : ℕ) (c : Connection S) (ec : ErrorCode) (socket : S)
      → get_elem? s.connections i ≡ some c
      → get_elem? (step net s (accepted ec socket)).connections i ≡ some c
  unfolding step
  kept_by_accept s i c ec socket found = ground (
    arith,
    get_elem?-append_left s.connections (start net (new_connection net socket) ∷ []) i c found,
  )

  reported :
      (s : Server S) (i : ℕ) (c : Connection S) (w : Wait) (ec : ErrorCode)
      → get_elem? s.connections i ≡ some c
      → get_elem? (step net s (completed i w ec)).connections i ≡ some (complete net w ec c)
  unfolding step
  reported s i c w ec found =
      rw (found, step) (get_elem?-set_same s.connections i (complete net w ec c) c found)

  kept_by_other :
      (s : Server S) (i j : ℕ) (w : Wait) (ec : ErrorCode)
      → j ≢ i
      → get_elem? (step net s (completed j w ec)).connections i ≡ get_elem? s.connections i
  unfolding step
  kept_by_other s i j w ec differ = elim (Option-cases (get_elem? s.connections j)) [
    | inl gone ↦ rw (gone, step) refl
    | inr (d, there) ↦
        rw (there, step) (get_elem?-set_other s.connections j i (complete net w ec d) differ)
  ]

  run_existing :
      (es : List (Event S)) (s : Server S) (i : ℕ) (c : Connection S)
      → get_elem? s.connections i ≡ some c
      → get_elem? (run net s es).connections i ≡ some (serve_one (own i es) c)
  unfolding run own serve_one
  run_existing [] s i c found = found
  run_existing (accepted ec socket ∷ es) s i c found =
      run_existing es (step net s (accepted ec socket)) i c (kept_by_accept s i c ec socket found)
  run_existing (completed j w ec ∷ es) s i c found = elim (Bool-cases (j == i)) [
    | inl same ↦ rw same (
        run_existing es (step net s (completed j w ec)) i (complete net w ec c) (
          subst
            (λ k.
              get_elem? (step net s (completed k w ec)).connections i ≡ some (complete net w ec c))
            (sym ((==_iff j i).0 same)) (reported s i c w ec found)))
    | inr other ↦ rw other (
        run_existing es (step net s (completed j w ec)) i c
          (kept_by_other s i j w ec (λ e. cc (other, (==_iff j i).1 e)) ∙ found))
  ]

  connections-accepted :
      (s : Server S) (ec : ErrorCode) (socket : S)
      → s.accepting ≡ 1
      → is_error ec ≡ false
      → (step net s (accepted ec socket)).connections
        ≡ s.connections ++ start net (new_connection net socket) ∷ []
  unfolding step
  connections-accepted s ec socket one passed = ground arith

  connections-refused :
      (s : Server S) (ec : ErrorCode) (socket : S)
      → is_error ec ≡ true
      → (step net s (accepted ec socket)).connections ≡ s.connections
  unfolding step
  connections-refused s ec socket failed = ground arith

  length-completed :
      (s : Server S) (i : ℕ) (w : Wait) (ec : ErrorCode)
      → length (step net s (completed i w ec)).connections ≡ length s.connections
  unfolding step
  length-completed s i w ec = elim (Option-cases (get_elem? s.connections i)) [
    | inl gone ↦ rw (gone, step) refl
    | inr (c, there) ↦ rw (there, step) (length-set s.connections i (complete net w ec c))
  ]

  -- The connection that is the next but `k`.
  run_born :
      (es : List (Event S)) (s : Server S) (i k : ℕ)
      → s.accepting ≡ 1
      → i ≡ length s.connections + k
      → get_elem? (run net s es).connections i ≡ Option.map live (life i k es)
  unfolding run life live
  run_born [] s i k one place = get_elem?_ge s.connections i (omega arith)
  run_born (accepted ec socket ∷ es) s i zero one place =
      let e = accepted ec socket in
      let t = step net s e in
      let still = accepting-step s e one in
      elim (Bool-cases (is_error ec)) [
        | inl failed ↦
            let same = ap length (connections-refused s ec socket failed) in
            rw failed (run_born es t i zero still (omega arith))
        | inr passed ↦
            let c = start net (new_connection net socket) in
            let at_end : i ≡ length s.connections = omega arith in
            rw passed (
              run_existing es t i c (
                ap (λ l. get_elem? l i) (connections-accepted s ec socket one passed)
                ∙ ap (get_elem? (s.connections ++ c ∷ [])) at_end
                ∙ get_elem?-append_last s.connections [] c))
      ]
  run_born (accepted ec socket ∷ es) s i (suc k) one place =
      let e = accepted ec socket in
      let t = step net s e in
      let still = accepting-step s e one in
      let c = start net (new_connection net socket) in
      elim (Bool-cases (is_error ec)) [
        | inl failed ↦
            let same = ap length (connections-refused s ec socket failed) in
            rw failed (run_born es t i (suc k) still (omega arith))
        | inr passed ↦
            let longer =
              ap length (connections-accepted s ec socket one passed)
              ∙ length-append s.connections (c ∷ []) in
            rw passed (run_born es t i k still (omega arith))
      ]
  run_born (completed j w ec ∷ es) s i zero one place =
      run_born es (step net s (completed j w ec)) i zero (accepting-step s (completed j w ec) one)
        (omega (arith, length-completed s j w ec))
  run_born (completed j w ec ∷ es) s i (suc k) one place =
      run_born es (step net s (completed j w ec)) i (suc k)
        (accepting-step s (completed j w ec) one) (omega (arith, length-completed s j w ec))

  -- After any schedule the `i`th connection of the server is what a connection alone comes to: started
  -- on the socket of the `i`th accept that passed, and served with the reports to it alone, in their
  -- order. Where fewer accepts passed, there is no such connection.
  pub run-life :
      (es : List (Event S)) (i : ℕ)
      → get_elem? (run net (new_server net) es).connections i ≡ Option.map live (life i i es)
  unfolding new_server
  run-life es i = run_born es (new_server net) i i refl (omega arith)

  accepting-run :
      (es : List (Event S)) (s : Server S) → s.accepting ≡ 1 → (run net s es).accepting ≡ 1
  unfolding run
  accepting-run [] s one = one
  accepting-run (e ∷ es) s one = accepting-run es (step net s e) (accepting-step s e one)

  -- Two schedules that accept the same sockets in the same order, and report the same to each
  -- connection in the same order, leave the server in the same state, however the reports to
  -- different connections are interleaved.
  run-SameLives :
      (es fs : List (Event S))
      → ((i : ℕ) → life i i es ≡ life i i fs)
      → run net (new_server net) es ≡ run net (new_server net) fs
  unfolding new_server
  run-SameLives es fs same =
      let accepting =
        accepting-run es (new_server net) refl ∙ sym (accepting-run fs (new_server net) refl) in
      let connections =
        get_elem?-ext _ _
          (λ i. run-life es i ∙ ap (Option.map live) (same i) ∙ sym (run-life fs i)) in
      λ i. record { accepting = accepting i; connections = connections i }
