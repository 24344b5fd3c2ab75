-- ===== src/Opendht/Requests/Values.antt =====
-- http.cpp against the proxy of proxy_restinio.cpp: the whole program prints the values of a key.
use smoll.Base.{
  append-nil, arith, All, ℕ, ◌≡◌, refl, sym, ap, ◌∙◌, List, [], ◌∷◌, ◌++◌, map, Bytes, true,
  append_assoc,
}
use mathlib.Core.List.{map-append}
use smoll.Proxy.Restinio.{Dht, Server, asks_get}
use smoll.Proxy.Restinio
use smoll.Proxy.Restinio.Contents.{value_lines, value_lines-append, streamed}
use smoll.Proxy.Restinio.Streams.{found, run-streamed}
use smoll.Opendht.BodyLines.{Parse, Report, on_body}
use smoll.Opendht.BodyLines.Streams.{IsReadable, on_body-value_lines}
use smoll.Opendht.Requests.{
  Event, status, body_piece, state_change, receiving, done, other, Response, Output, status_line,
  body_report, state_line, request_text, response_text, failed_with, request_done, Request, Looped,
  http_callbacks, http_request, http_main, body_of, looped, run, on_event,
}
use smoll.Opendht.Requests.Loop.{IsUnderWay, outputs, last_output, run-stops}

abbrev pub joined_lists : {A : Type 0} → List (List A) → List A
joined_lists [] = []
joined_lists (xs ∷ xss) = xs ++ joined_lists xss

abbrev pub bodies : List Event → Bytes
bodies [] = []
bodies (body_piece bytes ∷ es) = bytes ++ bodies es
bodies (e ∷ es) = bodies es

abbrev pub body_pieces : List Event → List Bytes
body_pieces [] = []
body_pieces (body_piece bytes ∷ es) = bytes ∷ body_pieces es
body_pieces (e ∷ es) = body_pieces es

-- The values that were printed.
abbrev pub printed : {J : Type 0} → List (Output J) → List J
printed [] = []
printed (body_report report ∷ os) = report.printed ++ printed os
printed (o ∷ os) = printed os

printed-append :
    {J : Type 0} (os ps : List (Output J)) → printed (os ++ ps) ≡ printed os ++ printed ps
printed-append [] ps = refl
printed-append (status_line n ∷ os) ps = printed-append os ps
printed-append (body_report report ∷ os) ps =
    ap (λ l. report.printed ++ l) (printed-append os ps)
    ∙ sym (append_assoc report.printed (printed os) (printed ps))
printed-append (state_line state n ∷ os) ps = printed-append os ps
printed-append (request_text ∷ os) ps = printed-append os ps
printed-append (response_text bytes ∷ os) ps = printed-append os ps
printed-append (failed_with n ∷ os) ps = printed-append os ps
printed-append (request_done ∷ os) ps = printed-append os ps

module _ {H V J N K : Type 0} (dht : Dht H V J N) (parse : Bytes → Parse K) (json_of : V → K)
    (law : IsReadable dht parse json_of) where
  -- The pieces of the body among the reports are whole lines, of these values.
  abbrev pub IsCutAs : List (List V) → List Event → Type 0
  IsCutAs vss es = body_pieces es ≡ map (value_lines dht) vss

  bodies-pieces : (es : List Event) → bodies es ≡ joined_lists (body_pieces es)
  bodies-pieces [] = refl
  bodies-pieces (body_piece bytes ∷ es) = ap (λ l. bytes ++ l) (bodies-pieces es)
  bodies-pieces (status n ∷ es) = bodies-pieces es
  bodies-pieces (state_change state r ∷ es) = bodies-pieces es

  lines-joined :
      (vss : List (List V))
      → joined_lists (map (value_lines dht) vss) ≡ value_lines dht (joined_lists vss)
  unfolding value_lines
  lines-joined [] = refl
  lines-joined (vs ∷ vss) =
      ap (λ l. value_lines dht vs ++ l) (lines-joined vss)
      ∙ sym (value_lines-append dht vs (joined_lists vss))

  -- What a piece prints.
  printed_piece : Bytes → List K
  printed_piece bytes = (on_body parse bytes).printed

  printed-outputs :
      (es : List Event)
      → printed (outputs (http_callbacks parse) es)
        ≡ joined_lists (map printed_piece (body_pieces es))
  unfolding on_event printed_piece
  printed-outputs [] = refl
  printed-outputs (status n ∷ es) = printed-outputs es
  printed-outputs (body_piece bytes ∷ es) =
      ap (λ l. (on_body parse bytes).printed ++ l) (printed-outputs es)
  printed-outputs (state_change receiving r ∷ es) = printed-outputs es
  printed-outputs (state_change (other n) r ∷ es) = printed-outputs es
  printed-outputs (state_change done r ∷ es) = ground (arith, printed-outputs es)

  printed-lines :
      (vss : List (List V))
      → joined_lists (map printed_piece (map (value_lines dht) vss))
        ≡ map json_of (joined_lists vss)
  unfolding printed_piece
  printed-lines [] = refl
  printed-lines (vs ∷ vss) =
      ap
        (λ (r : Report K).
          r.printed ++ joined_lists (map printed_piece (map (value_lines dht) vss)))
        (on_body-value_lines dht parse json_of law vs)
      ∙ ap (λ l. map json_of vs ++ l) (printed-lines vss)
      ∙ sym (map-append json_of vs (joined_lists vss))

  printed-last_output : (r : Response) → printed (last_output (http_callbacks parse) r) ≡ []
  printed-last_output r = ground arith

  -- Take a client that reads what the proxy writes of a value, and any history of the proxy. Where the
  -- node found certain values for a request in it, their lines are the body of the response. Where
  -- http::Request reports to http.cpp any status, any states but the end, and that body in pieces of
  -- whole lines, in any order, and then that the request is done, the program stops and has printed
  -- exactly those values, in that order, whatever the number of pieces is.
  pub http_main-printed :
      {A C : Type 0} (send : Request A C → List Event) (url : Bytes) (args : List Bytes) (id : ℕ)
      (s : Server H V N) (history : List (Restinio.Event V N)) (vss : List (List V))
      (reports after : List Event) (r : Response)
      → found dht id s history ≡ joined_lists vss
      → All IsUnderWay reports
      → IsCutAs vss reports
      → send (http_request url (body_of args)) ≡ reports ++ state_change done r ∷ after
      → (bodies reports ≡ streamed dht id (Restinio.run dht s history).1)
        × (l : Looped K) × (http_main parse send (url ∷ args) ≡ looped l)
        × (l.stopped ≡ true)
        × (printed l.output ≡ map json_of (joined_lists vss))
  unfolding http_main
  http_main-printed send url args id s history vss reports after r e under_way cut sent =
      let callbacks = http_callbacks parse in
      (
        bodies-pieces reports
            ∙ ap joined_lists cut
            ∙ lines-joined vss
            ∙ sym (run-streamed dht id history s ∙ ap (value_lines dht) e),
        record { output = outputs callbacks reports ++ last_output callbacks r; stopped = true },
        ap (λ es. looped (run callbacks es)) sent
            ∙ ap looped (run-stops callbacks reports after r under_way).0,
        refl,
        printed-append (outputs callbacks reports) (last_output callbacks r)
            ∙ ap (λ l. printed (outputs callbacks reports) ++ l) (printed-last_output r)
            ∙ append-nil _
            ∙ printed-outputs reports
            ∙ ap (λ l. joined_lists (map printed_piece l)) cut
            ∙ printed-lines vss,
      )
