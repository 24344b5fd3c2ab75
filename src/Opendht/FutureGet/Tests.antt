-- ===== src/Opendht/FutureGet/Tests.antt =====
-- The two gets of future-get.cpp, with callbacks by turns.
use smoll.Base.{
  ℕ, ◌≡◌, ◌≤◌, refl, codes, List, [], ◌∷◌, ◌++◌, true, false, none, some, Bytes, decimal,
}
use smoll.Opendht.FutureGet.Program.{
  Callback, wrapped_values, wrapped_done, plain_values, plain_done, main, client, promise_once,
}

abbrev before : List (Callback ℕ)
before = wrapped_values (1 ∷ 2 ∷ []) ∷ plain_values (9 ∷ []) ∷ wrapped_values (3 ∷ []) ∷ []

abbrev between : List (Callback ℕ)
between = plain_done true ∷ wrapped_values (4 ∷ []) ∷ []

abbrev rounds : List (List (Callback ℕ))
rounds =
    (wrapped_values (1 ∷ 2 ∷ []) ∷ plain_values (9 ∷ []) ∷ [])
    ∷ []
    ∷ (wrapped_values (3 ∷ []) ∷ wrapped_done true ∷ plain_done true ∷ [])
    ∷ (wrapped_values (4 ∷ []) ∷ [])
    ∷ []

abbrev more : List (List (Callback ℕ))
more = rounds ++ (wrapped_done false ∷ []) ∷ []

promise_once_example :
    (logged : List Bytes) × (main decimal rounds (codes "key" ∷ codes "::1" ∷ [])
      ≡ client (codes "key") (codes "::1") (codes "client01") (
        8,
        some (record {
          shared = record { values = 4 ∷ []; promised = some (1 ∷ 2 ∷ 3 ∷ []) };
          logged = logged;
        }),
      ))
    × (n : ℕ) × (main decimal more (codes "key" ∷ codes "::1" ∷ [])
        ≡ client (codes "key") (codes "::1") (codes "client01") (n, none))
    × (n ≤ 10)
promise_once_example =
    promise_once decimal before between [] true false rounds more (codes "key") (codes "::1") []
      (tt, (tt, (tt, tt))) (tt, (tt, tt)) refl refl
