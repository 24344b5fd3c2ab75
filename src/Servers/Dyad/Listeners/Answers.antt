-- ===== src/Servers/Dyad/Listeners/Answers.antt =====
-- What the server of httpserver_dyad.cpp writes, told from the events alone.
use smoll.Base.{
  ◌≢◌, subst, ℕ, ◌≡◌, refl, sym, ap, ◌∙◌, List, [], ◌∷◌, ◌++◌, Bool, true, false, ◌&&◌, ◌||◌, Bytes,
  ◌==◌, ==_iff, if◌then◌else◌, map, arith, append-nil, append_assoc, Bool-cases, inl, inr,
}
use mathlib.Core.List.{map-append}
use smoll.Servers.Dyad.{on_line}
use smoll.Servers.Dyad.Listeners.{
  error, accept, listen, line, is_kind, calls_on_error, calls_on_accept, calls_on_listen,
  calls_on_line, Event, Listener, HttpServer, add_listener, new_server, addressed, handle, hears,
  emit, run,
}

abbrev pub is_known : ℕ → List ℕ → Bool
is_known stream [] = false
is_known stream (k ∷ known) = k == stream || is_known stream known

-- The streams accepted so far, after an event, on a server that listens on `home`.
abbrev pub after : ℕ → List ℕ → Event → List ℕ
after home known e =
    if home == e.stream && is_kind accept e.kind then known ++ e.remote ∷ [] else known

-- What is written for an event: the answer to a line of an accepted stream.
abbrev pub answer : List ℕ → Event → List (ℕ × Bytes)
answer known e =
    if is_known e.stream known && is_kind line e.kind
    then addressed e.stream (on_line e.text).written
    else []

abbrev pub answers : ℕ → List ℕ → List Event → List (ℕ × Bytes)
answers home known [] = []
answers home known (e ∷ es) = answer known e ++ answers home (after home known e) es

-- dyad never accepts a stream that it has accepted before.
abbrev pub AreNew : ℕ → List ℕ → List Event → Type 0
AreNew home known [] = Unit
AreNew home known (e ∷ es) = (is_known e.remote known ≡ false) × AreNew home (after home known e) es

abbrev IsDistinct : List ℕ → Type 0
IsDistinct [] = Unit
IsDistinct (k ∷ known) = (is_known k known ≡ false) × IsDistinct known

is_known-append :
    (stream k : ℕ) (known : List ℕ)
    → is_known stream known ≡ false
    → stream ≢ k
    → is_known stream (known ++ k ∷ []) ≡ false
is_known-append stream k [] h n = ground arith
is_known-append stream k (j ∷ known) h n = ground (arith, is_known-append stream k known)

append-IsDistinct :
    (known : List ℕ) (k : ℕ)
    → IsDistinct known
    → is_known k known ≡ false
    → IsDistinct (known ++ k ∷ [])
append-IsDistinct [] k h n = (refl, tt)
append-IsDistinct (j ∷ known) k h n =
    (is_known-append j k known h.0 (ground arith), append-IsDistinct known k h.1 (ground arith))

line_listener : ℕ → Listener
line_listener stream = record { stream = stream; kind = line; handler = calls_on_line }

base : ℕ → List Listener
base home =
    record { stream = home; kind = error; handler = calls_on_error }
    ∷ record { stream = home; kind = accept; handler = calls_on_accept }
    ∷ record { stream = home; kind = listen; handler = calls_on_listen }
    ∷ []

emit-append :
    (ls ms : List Listener) (e : Event) (s : HttpServer)
    → emit (ls ++ ms) e s ≡ emit ms e (emit ls e s)
unfolding emit
emit-append [] ms e s = refl
emit-append (l ∷ ls) ms e s = emit-append ls ms e (if hears l e then handle l.handler e s else s)

-- The listeners of the server's own stream add one for an accepted stream, and do nothing else.
emit-base :
    (home : ℕ) (e : Event) (s : HttpServer)
    → emit (base home) e s ≡ (
        if home == e.stream && is_kind accept e.kind
        then add_listener e.remote line calls_on_line s
        else s)
unfolding emit base
emit-base home e s = ground arith

-- Of two parts that do not both apply, what they write together.
either :
    {A : Type 0} (heard known is_line : Bool) (w t : List A)
    → (heard ≡ true → known ≡ false)
    → (if heard && is_line then w ++ t else w) ++ (if known && is_line then t else [])
      ≡ w ++ (if (heard || known) && is_line then t else [])
either true true is_line w t h = absurd (cc (h refl))
either true false true w t h = append-nil (w ++ t)
either true false false w t h = refl
either false known is_line w t h = refl

if_written :
    (b : Bool) (s : HttpServer) (w : List (ℕ × Bytes))
    → (if b then record s { written = w } else s)
      ≡ record s { written = if b then w else s.written }
if_written true s w = refl
if_written false s w = refl

-- Those of distinct accepted streams answer once.
emit-lines :
    (known : List ℕ) (e : Event) (s : HttpServer)
    → IsDistinct known
    → emit (map line_listener known) e s ≡ record s { written = s.written ++ answer known e }
unfolding emit line_listener
emit-lines [] e s h = ap (λ w. record s { written = w }) (sym (append-nil s.written))
emit-lines (k ∷ known) e s h =
    let texts = addressed e.stream (on_line e.text).written in
    ap (emit (map line_listener known) e)
      (if_written (k == e.stream && is_kind line e.kind) s (s.written ++ texts))
    ∙ emit-lines known e
        (record s {
          written = if k == e.stream && is_kind line e.kind then s.written ++ texts else s.written;
        })
        h.1
    ∙ ap (λ w. record s { written = w })
        (either (k == e.stream) (is_known e.stream known) (is_kind line e.kind) s.written texts
          (λ same. subst (λ j. is_known j known ≡ false) ((==_iff k e.stream).0 same) h.0))

-- What the server has done, where `known` streams are accepted.
record IsAnswering (home : ℕ) (known : List ℕ) (written : List (ℕ × Bytes)) (s : HttpServer)
    : Type 0 where
  listening : s.listeners ≡ base home ++ map line_listener known
  answered : s.written ≡ written
  none_ended : s.ended ≡ []
  distinct : IsDistinct known

emit-IsAnswering :
    (home : ℕ) (known : List ℕ) (written : List (ℕ × Bytes)) (e : Event) (s : HttpServer)
    → is_known e.remote known ≡ false
    → IsAnswering home known written s
    → IsAnswering home (after home known e) (written ++ answer known e) (emit s.listeners e s)
unfolding line_listener
emit-IsAnswering home known written e s new h =
    let accepts = home == e.stream && is_kind accept e.kind in
    let heard = if accepts then add_listener e.remote line calls_on_line s else s in
    let emitted : emit s.listeners e s
        ≡ record heard { written = heard.written ++ answer known e } =
      ap (λ ls. emit ls e s) h.listening
      ∙ emit-append (base home) (map line_listener known) e s
      ∙ ap (emit (map line_listener known) e) (emit-base home e s)
      ∙ emit-lines known e heard h.distinct in
    subst (IsAnswering home (after home known e) (written ++ answer known e)) (sym emitted)
      (elim (Bool-cases accepts) [
        | inl is_new ↦ rw is_new (record {
          listening = added h.listening;
          answered = ap (λ w. w ++ answer known e) h.answered;
          none_ended = h.none_ended;
          distinct = append-IsDistinct known e.remote h.distinct new;
        })
        | inr is_old ↦ rw is_old (record {
          listening = h.listening;
          answered = ap (λ w. w ++ answer known e) h.answered;
          none_ended = h.none_ended;
          distinct = h.distinct;
        })
      ])
  where
    added :
        s.listeners ≡ base home ++ map line_listener known
        → s.listeners ++ line_listener e.remote ∷ []
          ≡ base home ++ map line_listener (known ++ e.remote ∷ [])
    added l =
        ap (λ ls. ls ++ line_listener e.remote ∷ []) l
        ∙ append_assoc (base home) (map line_listener known) (line_listener e.remote ∷ [])
        ∙ ap (λ ls. base home ++ ls) (sym (map-append line_listener known (e.remote ∷ [])))

run-IsAnswering :
    (home : ℕ) (known : List ℕ) (written : List (ℕ × Bytes)) (s : HttpServer) (es : List Event)
    → AreNew home known es
    → IsAnswering home known written s
    → ((run s es).written ≡ written ++ answers home known es) × ((run s es).ended ≡ [])
unfolding run
run-IsAnswering home known written s [] new h =
    (h.answered ∙ sym (append-nil written), h.none_ended)
run-IsAnswering home known written s (e ∷ es) new h =
    let (w, n) =
      run-IsAnswering home (after home known e) (written ++ answer known e) (emit s.listeners e s)
        es new.1 (emit-IsAnswering home known written e s new.0 h) in
    (w ∙ append_assoc written (answer known e) (answers home (after home known e) es), n)

-- Where dyad accepts a stream at most once: what the server has written, in order, is for each event
-- the answer to a line of a stream accepted before it, once, and nothing for any other event; and it
-- has ended no stream, so that a client is never told that its answer is over.
pub run-writes :
    (home : ℕ) (es : List Event)
    → AreNew home [] es
    → ((run (new_server home) es).written ≡ answers home [] es)
      × ((run (new_server home) es).ended ≡ [])
unfolding new_server base
run-writes home es new =
    run-IsAnswering home [] [] (new_server home) es new
      (record { listening = refl; answered = refl; none_ended = refl; distinct = tt })
