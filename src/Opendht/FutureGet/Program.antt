-- ===== src/Opendht/FutureGet/Program.antt =====
-- future-get.cpp: `main`. The client calls back inside `periodic`, so a round of the loop is the list of
-- the callbacks that it makes; the client itself is the environment's.
use smoll.Base.{
  ℕ, ◌+◌, ◌*◌, ◌≤◌, ◌≡◌, refl, sym, ap, length, arith, ◌∙◌, List, [], ◌∷◌, ◌++◌, Bool, Option, none,
  some, Bytes, codes, All, if◌then◌else◌, Option-cases, inl, inr,
}
use mathlib.Core.Option.{none-ne-some}
use smoll.Opendht.FutureGet.{
  Shared, new_shared, on_values, on_done, on_all, gathered, on_all-gathered, get_text,
}

-- The callbacks of the get that is wrapped with a future, and of the other one.
pub data Callback (V : Type 0) : Type 0 where
  wrapped_values : List V → Callback V
  wrapped_done : Bool → Callback V
  plain_values : List V → Callback V
  plain_done : Bool → Callback V

-- `%i` of a truth value.
abbrev pub digit_of : Bool → Bytes
digit_of ok = if ok then codes "1" else codes "0"

abbrev pub done_text : Bool → Bytes
done_text ok = codes "[get1::donecb] ok=" ++ digit_of ok

-- The shared vector and promise, and what is logged.
pub record State (V : Type 0) : Type 0 where
  pub shared : Shared V
  pub logged : List Bytes

module _ {V : Type 0} (to_string : V → Bytes) where
  -- `none` is the exception of a second `set_value`, which leaves `main`.
  unfoldable pub call : Callback V → State V → Option (State V)
  unfolding on_values on_done get_text
  call (wrapped_values vs) s = some (record s { shared = on_values vs s.shared })
  call (wrapped_done ok) s = elim (on_done ok s.shared) [
    | none ↦ none
    | some shared ↦ some (record s { shared = shared })
  ]
  call (plain_values vs) s = some (record s { logged = s.logged ++ get_text to_string vs ∷ [] })
  call (plain_done ok) s = some (record s { logged = s.logged ++ done_text ok ∷ [] })

  unfoldable pub calls : List (Callback V) → State V → Option (State V)
  unfolding call
  calls [] s = some s
  calls (c ∷ cs) s = elim (call c s) [ none ↦ none | some t ↦ calls cs t ]

  -- The loop, by the callbacks of its rounds, of two seconds each: the seconds slept, and the state, or
  -- none where an exception has ended the program.
  unfoldable pub loop : List (List (Callback V)) → State V → ℕ × Option (State V)
  unfolding calls
  loop [] s = (0, some s)
  loop (round ∷ rounds) s = elim (calls round s) [
    | none ↦ (2, none)
    | some t ↦ let later = loop rounds t in (2 + later.0, later.1)
  ]

  abbrev pub started : State V
  started = record { shared = new_shared; logged = [] }

  -- The usage message, or the client of a key and an address, and its loop.
  pub data Run : Type 0 where
    usage : Run
    client : (key address name : Bytes) → ℕ × Option (State V) → Run

  unfoldable pub main : List (List (Callback V)) → List Bytes → Run
  unfolding loop
  main rounds (key ∷ address ∷ args) = client key address (codes "client01") (loop rounds started)
  main rounds few = usage

  -- The values for the wrapped get.
  abbrev pub wrapped : List (Callback V) → List (List V)
  wrapped [] = []
  wrapped (wrapped_values vs ∷ cs) = vs ∷ wrapped cs
  wrapped (c ∷ cs) = wrapped cs

  abbrev pub IsUnderWay : Callback V → Type 0
  IsUnderWay (wrapped_done ok) = ⊥
  IsUnderWay c = Unit {0}

  calls-append :
      (cs ds : List (Callback V)) (s t : State V)
      → calls cs s ≡ some t
      → calls (cs ++ ds) s ≡ calls ds t
  unfolding calls
  calls-append [] ds s t h = ap (λ o. elim o [ none ↦ none | some u ↦ calls ds u ]) h
  calls-append (c ∷ cs) ds s t h = elim (Option-cases (call c s)) [
    | inl e ↦ absurd (none-ne-some t (rw (e, calls) at h))
    | inr (u, e) ↦ rw (e, calls) (calls-append cs ds u t (rw (e, calls) at h))
  ]

  calls-append_none :
      (cs ds : List (Callback V)) (s : State V) → calls cs s ≡ none → calls (cs ++ ds) s ≡ none
  unfolding calls
  calls-append_none [] ds s h = absurd (none-ne-some s (sym h))
  calls-append_none (c ∷ cs) ds s h = elim (Option-cases (call c s)) [
    | inl e ↦ rw (e, calls) refl
    | inr (u, e) ↦ rw (e, calls) (calls-append_none cs ds u (rw (e, calls) at h))
  ]

  -- While the wrapped get goes on, its values gather in order, whatever is logged between.
  calls-gather :
      (cs : List (Callback V)) (s : State V)
      → All IsUnderWay cs
      → (logged : List Bytes) × (calls cs s
          ≡ some (record { shared = on_all (wrapped cs) s.shared; logged = logged }))
  unfolding calls call on_all
  calls-gather [] s h = (s.logged, refl)
  calls-gather (wrapped_values vs ∷ cs) s h =
      calls-gather cs (record s { shared = on_values vs s.shared }) h.1
  calls-gather (wrapped_done ok ∷ cs) s h = absurd h.0
  calls-gather (plain_values vs ∷ cs) s h = calls-gather cs _ h.1
  calls-gather (plain_done ok ∷ cs) s h = calls-gather cs _ h.1

  -- All callbacks up to the first end of the wrapped get, and up to the second.
  calls_once :
      (before between after : List (Callback V)) (ok again : Bool)
      → All IsUnderWay before
      → All IsUnderWay between
      → (logged : List Bytes) × (calls (before ++ wrapped_done ok ∷ between) started
          ≡ some (record {
            shared = record {
              values = gathered (wrapped between);
              promised = some (gathered (wrapped before));
            };
            logged = logged;
          }))
        × (calls (before ++ wrapped_done ok ∷ (between ++ wrapped_done again ∷ after)) started
            ≡ none)
  unfolding calls call
  calls_once before between after ok again h j =
      let (first_log, filled) = calls-gather before started h in
      let held : State V = record {
        shared = record { values = gathered (wrapped before); promised = none };
        logged = first_log;
      } in
      let full : State V = record {
        shared = record { values = []; promised = some (gathered (wrapped before)) };
        logged = first_log;
      } in
      let gathers : calls before started ≡ some held =
        filled
        ∙ ap (λ shared. some (record { shared = shared; logged = first_log }))
            (on_all-gathered (wrapped before) new_shared) in
      let (second_log, refilled) = calls-gather between full j in
      let last : State V = record {
        shared = record {
          values = gathered (wrapped between);
          promised = some (gathered (wrapped before));
        };
        logged = second_log;
      } in
      let regathers : calls between full ≡ some last =
        refilled
        ∙ ap (λ shared. some (record { shared = shared; logged = second_log }))
            (on_all-gathered (wrapped between) full.shared) in
      (
        second_log,
        calls-append before (wrapped_done ok ∷ between) started held gathers ∙ regathers,
        calls-append before (wrapped_done ok ∷ (between ++ wrapped_done again ∷ after)) started held
              gathers
            ∙ calls-append between (wrapped_done again ∷ after) full last regathers,
      )

  abbrev pub flat : List (List (Callback V)) → List (Callback V)
  flat [] = []
  flat (round ∷ rounds) = round ++ flat rounds

  -- The rounds of the loop call back what they hold, one after the other.
  loop-some :
      (rounds : List (List (Callback V))) (s t : State V)
      → calls (flat rounds) s ≡ some t
      → loop rounds s ≡ (2 * length rounds, some t)
  unfolding loop calls
  loop-some [] s t e = ap (λ o. (0, o)) e
  loop-some (round ∷ rounds) s t e = elim (Option-cases (calls round s)) [
    | inl stop ↦ absurd (none-ne-some t (sym (calls-append_none round (flat rounds) s stop) ∙ e))
    | inr (u, on) ↦
        let rest = loop-some rounds u t (sym (calls-append round (flat rounds) s u on) ∙ e) in
        rw (on, loop)
          (ap (λ (l : ℕ × Option (State V)). (2 + l.0, l.1)) rest
            ∙ ap (λ n. (n, some t)) (omega arith))
  ]

  loop-none :
      (rounds : List (List (Callback V))) (s : State V)
      → calls (flat rounds) s ≡ none
      → (n : ℕ) × (loop rounds s ≡ (n, none)) × (n ≤ 2 * length rounds)
  unfolding loop calls
  loop-none [] s e = absurd (none-ne-some s (sym e))
  loop-none (round ∷ rounds) s e = elim (Option-cases (calls round s)) [
    | inl stop ↦ (2, rw (stop, loop) refl, omega arith)
    | inr (u, on) ↦
        let (n, rest, bound) =
          loop-none rounds u (sym (calls-append round (flat rounds) s u on) ∙ e) in
        (2 + n, rw (on, loop) (ap (λ (l : ℕ × Option (State V)). (2 + l.0, l.1)) rest), omega arith)
  ]

  -- However the callbacks are spread over the rounds of the loop and mixed with those of the other get,
  -- for a program with its two arguments. Where the wrapped get ends once, the program is still in its
  -- loop behind the rounds, two seconds for each, and the promise holds all values that this get found
  -- before its end, in the order that they were found in; values that come later stay out of it. Where
  -- that get ends a second time, the program ends by an exception in one of the rounds.
  pub promise_once :
      (before between after : List (Callback V)) (ok again : Bool)
      (rounds more : List (List (Callback V))) (key address : Bytes) (args : List Bytes)
      → All IsUnderWay before
      → All IsUnderWay between
      → flat rounds ≡ before ++ wrapped_done ok ∷ between
      → flat more ≡ before ++ wrapped_done ok ∷ (between ++ wrapped_done again ∷ after)
      → (logged : List Bytes) × (main rounds (key ∷ address ∷ args)
          ≡ client key address (codes "client01") (
            2 * length rounds,
            some (record {
              shared = record {
                values = gathered (wrapped between);
                promised = some (gathered (wrapped before));
              };
              logged = logged;
            }),
          ))
        × (n : ℕ) × (main more (key ∷ address ∷ args)
            ≡ client key address (codes "client01") (n, none))
        × (n ≤ 2 * length more)
  unfolding main
  promise_once before between after ok again rounds more key address args h j spread spread_more =
      let (logged, once, twice) = calls_once before between after ok again h j in
      let (n, ended, bound) =
        loop-none more started (ap (λ cs. calls cs started) spread_more ∙ twice) in
      (
        logged,
        ap (client key address (codes "client01"))
            (loop-some rounds started _ (ap (λ cs. calls cs started) spread ∙ once)),
        n,
        ap (client key address (codes "client01")) ended,
        bound,
      )
