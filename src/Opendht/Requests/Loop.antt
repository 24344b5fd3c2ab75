-- ===== src/Opendht/Requests/Loop.antt =====
-- The loop runs to the first report that the request is done, and no further.
use smoll.Base.{
  ◌≡◌, refl, sym, append-nil, arith, ap, ◌∙◌, List, [], ◌∷◌, ◌++◌, Bool, true, false, All,
  append_assoc, ◌==◌, if◌then◌else◌,
}
use smoll.Opendht.Requests.{
  receiving, done, other, Response, Event, status, body_piece, state_change, Output, state_line,
  failed_with, request_done, Callbacks, on_event, run,
}

abbrev pub is_done : Event → Bool
is_done (state_change done r) = true
is_done e = false

abbrev pub IsUnderWay : Event → Type 0
IsUnderWay e = is_done e ≡ false

module _ {J : Type 0} (callbacks : Callbacks J) where
  -- What the events print, one after the other.
  abbrev pub outputs : List Event → List (Output J)
  outputs [] = []
  outputs (e ∷ es) = (on_event callbacks e).output ++ outputs es

  -- What the end of a request prints.
  abbrev pub last_output : Response → List (Output J)
  last_output r =
      state_line done r.status_code ∷ callbacks.shown r
      ++ (if r.status_code == 200 then request_done else failed_with r.status_code) ∷ []

  on_event-goes_on : (e : Event) → IsUnderWay e → (on_event callbacks e).stopped ≡ false
  unfolding on_event
  on_event-goes_on (status code) h = refl
  on_event-goes_on (body_piece bytes) h = refl
  on_event-goes_on (state_change receiving r) h = refl
  on_event-goes_on (state_change done r) h = cc
  on_event-goes_on (state_change (other n) r) h = refl

  run_under_way :
      (before es : List Event)
      → All IsUnderWay before
      → run callbacks (before ++ es) ≡ record {
        output = outputs before ++ (run callbacks es).output;
        stopped = (run callbacks es).stopped;
      }
  unfolding run
  run_under_way [] es h = refl
  run_under_way (e ∷ before) es h =
      rw (on_event-goes_on e h.0, run_under_way before es h.1, append_assoc) refl

  run_done :
      (r : Response) (after : List Event)
      → run callbacks (state_change done r ∷ after)
        ≡ record { output = last_output r; stopped = true }
  unfolding run
  run_done r after = ground arith

  run_unfinished :
      (before : List Event)
      → All IsUnderWay before
      → run callbacks before ≡ record { output = outputs before; stopped = false }
  unfolding run
  run_unfinished before h =
      ap (run callbacks) (sym (append-nil before))
      ∙ run_under_way before [] h
      ∙ ap (λ o. record { output = o; stopped = false }) (append-nil (outputs before))

  -- Whatever the callbacks of the program print: the loop stops at the first report that the request
  -- is done, and nothing behind it is looked at; it has printed what every event before it prints, in
  -- order, then the state, what the program shows of the response, and that the request is done where
  -- the status is 200, or else that it failed with that status. Without such a report it never stops.
  pub run-stops :
      (before after : List Event) (r : Response)
      → All IsUnderWay before
      → (run callbacks (before ++ state_change done r ∷ after)
          ≡ record { output = outputs before ++ last_output r; stopped = true })
        × (run callbacks before ≡ record { output = outputs before; stopped = false })
  run-stops before after r h = (
    rw (run_under_way before (state_change done r ∷ after) h, run_done r after) refl,
    run_unfinished before h,
  )
