-- ===== src/Async/Posting/Callbacks.antt =====
-- Which callbacks of client2.cpp are called, how often, and with what.
use smoll.Base.{
  ℕ, ◌+◌, ◌≡◌, ◌≤◌, refl, inl, inr, List, [], ◌∷◌, ◌||◌, Option, none, some, Bytes, ◌==◌, take_at,
  if◌then◌else◌, arith, Option-cases, Holds, Holds-some, sum_of, sum_of-append, IsSplit,
  take_at-IsSplit,
}
use mathlib.Core.Option
use smoll.Async.Posting.{
  Request, Resolving, Client, Effect, called, Answer, call_back, on_resolve, Event, runs_posted,
  resolved, step, run, post_all, main,
}

-- Whether the request is to call the `k`th callback.
abbrev pub asks : ℕ → Request → ℕ
asks k r = elim (r.respcb) [ none ↦ 0 | some j ↦ if j == k then 1 else 0 ]

abbrev pub asks_later : ℕ → Resolving → ℕ
asks_later k w = asks k (w.request)

abbrev pub is_call : ℕ → Effect → ℕ
is_call k (called j response) = if j == k then 1 else 0
is_call k _ = 0

-- How often the effects call it.
unfoldable pub calls : ℕ → List Effect → ℕ
calls k = sum_of (is_call k)

-- The requests of the client that may still call it.
pub waiting : ℕ → Client → ℕ
waiting k c = sum_of (asks k) c.posted + sum_of (asks_later k) c.resolving

call_back-calls :
    (k : ℕ) (o : Option ℕ) (text response : Bytes)
    → calls k (call_back o response) ≡ asks k (record { text = text; respcb = o })
unfolding call_back calls
call_back-calls k none text response = refl
call_back-calls k (some j) text response = omega arith

abbrev CallsAtMost : ℕ → ℕ → List Effect → Type 0
CallsAtMost k n es = calls k es ≤ n

on_resolve-CallsAtMost :
    (k : ℕ) (w : Resolving) (a : Answer) → Holds (CallsAtMost k (asks_later k w)) (on_resolve w a)
unfolding on_resolve calls
on_resolve-CallsAtMost k w a =
    let last = call_back-calls k w.request.respcb w.request.text a.data_read in ground (arith, last)

abbrev IsKept : ℕ → Client → Client × List Effect → Type 0
IsKept k c p = calls k p.1 + waiting k p.0 ≤ waiting k c

resolved-IsKept :
    (k : ℕ) (c : Client) (w : Resolving) (rest : List Resolving) (a : Answer)
    → IsSplit (asks_later k) c.resolving (w, rest)
    → Holds (IsKept k c) (Option.map (λ es. (record c { resolving = rest }, es)) (on_resolve w a))
unfolding waiting
resolved-IsKept k c w rest a split = elim (Option-cases (on_resolve w a)) [
  | inl e ↦ rw e tt
  | inr (es, e) ↦
      let few = Holds-some (CallsAtMost k _) _ es e (on_resolve-CallsAtMost k w a) in
      rw e (omega arith)
]

posted-IsKept :
    (k : ℕ) (posted : List Request) (resolving : List Resolving) (conn_id : ℕ)
    → let c : Client = record { posted = posted; resolving = resolving; conn_id = conn_id } in
      Holds (IsKept k c) (step c runs_posted)
unfolding step waiting calls
posted-IsKept k [] resolving conn_id = omega arith
posted-IsKept k (r ∷ rest) resolving conn_id = omega arith

step-IsKept : (k : ℕ) (c : Client) (e : Event) → Holds (IsKept k c) (step c e)
unfolding step calls waiting
step-IsKept k c runs_posted = posted-IsKept k c.posted c.resolving c.conn_id
step-IsKept k c (resolved j a) = elim (Option-cases (take_at j c.resolving)) [
  | inl e ↦ rw (e, step) (omega arith)
  | inr ((w, rest), e) ↦
      rw (e, step)
        (resolved-IsKept k c w rest a (
          Holds-some (IsSplit (asks_later k) c.resolving) _ _ e
            (take_at-IsSplit (asks_later k) j c.resolving)))
]

-- Under every order of the handlers, and whatever the resolver and the connections answer: the calls
-- of a callback, and the requests that may still call it, are together at most as many as the requests
-- that could call it at the start.
run-calls :
    (k : ℕ) (c : Client) (events : List Event)
    → calls k (run c events).effects + waiting k (run c events).client ≤ waiting k c
unfolding run calls
run-calls k c [] = omega arith
run-calls k c (e ∷ events) = elim (Option-cases (step c e)) [
  | inl thrown ↦ rw (thrown, run) (omega arith)
  | inr ((d, es), now) ↦
      let kept = Holds-some (IsKept k c) _ _ now (step-IsKept k c e) in
      let later = run-calls k d events in
      rw (now, run) (omega (arith, sum_of-append (is_call k) es (run d events).effects))
]

-- The callbacks of `main` are the first and the second: each is called at most once, and no other is.
pub main-calls :
    (target : Bytes) (events : List Event) (k : ℕ)
    → calls k (main target events).0 ≤ (if k == 1 || k == 2 then 1 else 0)
unfolding main post_all waiting
main-calls target events k = let few = run-calls k (post_all target) events in ground arith
