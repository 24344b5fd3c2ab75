-- ===== src/Async/Posting/Ids.antt =====
-- The ids of the connections of client2.cpp, and what a callback is given.
use mathlib.Core.Option
use smoll.Base.{
  ℕ, zero, suc, ◌+◌, ◌%◌, ◌^◌, ◌≡◌, ◌<◌, refl, ap, ◌∙◌, inl, inr, List, [], ◌∷◌, ◌++◌, true, false,
  Option, none, some, Bytes, take_at, arith, Option-cases, Holds, Holds-some, Lacks, length,
  c_str-append, get_elem?,
}
use smoll.Async.Net.{is_error}
use smoll.Async.Posting.{
  Request, Resolving, Client, Effect, created, closed, connected, read, written, called, Answer,
  async_request, call_back, is_fatal, on_resolve, Event, runs_posted, resolved, step, run,
}

-- The ids under which connections were made.
abbrev pub ids : List Effect → List ℕ
ids [] = []
ids (created id ∷ es) = id ∷ ids es
ids (e ∷ es) = ids es

ids-append : (xs ys : List Effect) → ids (xs ++ ys) ≡ ids xs ++ ids ys
ids-append [] ys = refl
ids-append (created id ∷ xs) ys = ap (λ l. id ∷ l) (ids-append xs ys)
ids-append (closed id ∷ xs) ys = ids-append xs ys
ids-append (connected id ∷ xs) ys = ids-append xs ys
ids-append (read id ∷ xs) ys = ids-append xs ys
ids-append (written id b ∷ xs) ys = ids-append xs ys
ids-append (called k b ∷ xs) ys = ids-append xs ys

abbrev next_id : ℕ → ℕ
next_id id = (id + 1) % 2 ^ 16

abbrev IsCounted : ℕ → List ℕ → Type 0
IsCounted id [] = Unit
IsCounted id (x ∷ xs) = (x ≡ id) × IsCounted (next_id id) xs

-- The step made no connection, or one under the client's next id.
abbrev Continues : Client → Client × List Effect → Type 0
Continues c p = ((xs : List ℕ) → IsCounted (p.0).conn_id xs → IsCounted c.conn_id (ids p.1 ++ xs))

call_back-ids : (o : Option ℕ) (b : Bytes) → ids (call_back o b) ≡ []
unfolding call_back
call_back-ids none b = refl
call_back-ids (some k) b = refl

on_resolve-ids : (w : Resolving) (a : Answer) → Holds (λ es. ids es ≡ []) (on_resolve w a)
unfolding on_resolve
on_resolve-ids w a = let last = call_back-ids w.request.respcb a.data_read in ground (arith, last)

posted-Continues :
    (posted : List Request) (resolving : List Resolving) (conn_id : ℕ)
    → let c : Client = record { posted = posted; resolving = resolving; conn_id = conn_id } in
      Holds (Continues c) (step c runs_posted)
unfolding step
posted-Continues [] resolving conn_id = λ xs h. h
posted-Continues (r ∷ rest) resolving conn_id = λ xs h. (refl, h)

resolved-Continues :
    (c : Client) (w : Resolving) (rest : List Resolving) (a : Answer)
    → Holds (Continues c) (Option.map (λ es. (record c { resolving = rest }, es)) (on_resolve w a))
resolved-Continues c w rest a = elim (Option-cases (on_resolve w a)) [
  | inl e ↦ rw e tt
  | inr (es, e) ↦
      let silent = Holds-some (λ fs. ids fs ≡ []) _ es e (on_resolve-ids w a) in
      rw e (λ xs h. rw silent h)
]

step-Continues : (c : Client) (e : Event) → Holds (Continues c) (step c e)
unfolding step
step-Continues c runs_posted = posted-Continues c.posted c.resolving c.conn_id
step-Continues c (resolved j a) = elim (Option-cases (take_at j c.resolving)) [
  | inl e ↦ rw (e, step) (λ xs h. h)
  | inr ((w, rest), e) ↦ rw (e, step) (resolved-Continues c w rest a)
]

run-IsCounted :
    (c : Client) (events : List Event) → IsCounted c.conn_id (ids (run c events).effects)
unfolding run
run-IsCounted c [] = tt
run-IsCounted c (e ∷ events) = elim (Option-cases (step c e)) [
  | inl thrown ↦ rw (thrown, run) tt
  | inr ((d, es), now) ↦
      let more = Holds-some (Continues c) _ _ now (step-Continues c e) in
      rw (now, run, ids-append es (run d events).effects)
        (more (ids (run d events).effects) (run-IsCounted d events))
]

get_elem?-IsCounted :
    (id : ℕ) (xs : List ℕ) (i : ℕ)
    → id < 2 ^ 16
    → IsCounted id xs
    → i < length xs
    → get_elem? xs i ≡ some ((id + i) % 2 ^ 16)
get_elem?-IsCounted id [] i small h bound = absurd (omega arith)
get_elem?-IsCounted id (x ∷ xs) zero small h bound = ap some (omega (arith, h.0))
get_elem?-IsCounted id (x ∷ xs) (suc i) small h bound =
    get_elem?-IsCounted (next_id id) xs i (omega arith) h.1 (omega arith) ∙ ap some (omega arith)

-- Under every order of the handlers, the connections get consecutive ids from the client's next one
-- on, which wrap around behind 2 ^ 16 - 1: the `i`th connection of a client that is to use `conn_id`
-- has the id (conn_id + i) % 2 ^ 16.
pub run-ids :
    (c : Client) (events : List Event) (i : ℕ)
    → c.conn_id < 2 ^ 16
    → i < length (ids (run c events).effects)
    → get_elem? (ids (run c events).effects) i ≡ some ((c.conn_id + i) % 2 ^ 16)
run-ids c events i small bound =
    get_elem?-IsCounted c.conn_id (ids (run c events).effects) i small (run-IsCounted c events)
      bound

-- A request posted alone that is resolved, connected, written and read without an error: the callback
-- is called with the bytes of the response in front of its first NUL, and the rest is lost.
pub response_cut :
    (k conn_id : ℕ) (text shown lost : Bytes) (a : Answer)
    → Lacks 0 shown
    → is_error a.resolve_ec ≡ false
    → a.found ≡ true
    → a.connects ≡ true
    → a.opened ≡ true
    → is_fatal a.write_ec ≡ false
    → is_fatal a.read_ec ≡ false
    → a.data_read ≡ shown ++ 0 ∷ lost
    → let c : Client = record {
      posted = record { text = text; respcb = some k } ∷ [];
      resolving = [];
      conn_id = conn_id;
    } in
      (run c (runs_posted ∷ resolved 0 a ∷ [])).effects
      ≡ created conn_id
        ∷ connected conn_id
        ∷ written conn_id text
        ∷ read conn_id
        ∷ called k shown
        ∷ []
unfolding run step async_request on_resolve call_back
response_cut k conn_id text shown lost a clean resolves finds connects opens writes reads whole =
    rw (resolves, finds, connects, opens, writes, reads, whole, c_str-append shown lost clean) refl
