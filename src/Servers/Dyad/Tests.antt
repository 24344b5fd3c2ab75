-- ===== src/Servers/Dyad/Tests.antt =====
-- Request lines of a browser: the theorems at concrete inputs.
use smoll.Base.{List, ◌≡◌, refl, [], ◌∷◌, none, codes}
use smoll.Servers.Dyad.{on_line, status_line}
use smoll.Servers.Dyad.Listeners.{Event, accept, line, run, new_server}
use smoll.Servers.Dyad.Listeners.Answers.{run-writes}

other_line : on_line (codes "Host: localhost") ≡ record { path = none; written = [] }
unfolding on_line
other_line = refl

abbrev visit : List Event
visit =
    record { kind = accept; stream = 0; remote = 1; text = [] }
    ∷ record { kind = line; stream = 1; remote = 2; text = codes "GET /key HTTP/1.1" }
    ∷ []

run-writes_example :
    ((run (new_server 0) visit).written ≡ (1, status_line) ∷ (1, codes "dht::get()") ∷ [])
    × ((run (new_server 0) visit).ended ≡ [])
unfolding on_line
run-writes_example = run-writes 0 visit (refl, (refl, tt))
