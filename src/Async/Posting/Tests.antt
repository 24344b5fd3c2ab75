-- ===== src/Async/Posting/Tests.antt =====
-- The queued requests of client2.cpp on small answers: the theorems at concrete inputs.
use smoll.Base.{
  c_str, ◌+◌, ◌%◌, ◌^◌, ◌≡◌, ◌≤◌, refl, List, [], ◌∷◌, ◌++◌, true, ◌||◌, some, codes, ◌==◌,
  if◌then◌else◌, arith, get_elem?,
}
use smoll.Async.Net.{success, eof}
use smoll.Async.Posting.{
  Client, Answer, on_resolve, Event, runs_posted, resolved, run, post_all, main,
}
use smoll.Async.Posting.Callbacks.{calls, main-calls}
use smoll.Async.Posting.Ids.{ids, run-ids}

-- A response with a NUL behind its first two bytes.
abbrev answer : Answer
answer = record {
  resolve_ec = success;
  found = true;
  connects = true;
  opened = true;
  write_ec = success;
  read_ec = eof;
  data_read = codes "ok" ++ 0 ∷ codes "lost";
}

abbrev events : List Event
events = runs_posted ∷ runs_posted ∷ resolved 0 answer ∷ runs_posted ∷ resolved 1 answer ∷ []

both_called : (calls 1 (main (codes "/") events).0 ≡ 1) × (calls 2 (main (codes "/") events).0 ≡ 1)
unfolding main calls on_resolve c_str
both_called = (refl, refl)

main-calls_example : calls 1 (main (codes "/") events).0 ≤ (if 1 == 1 || 1 == 2 then 1 else 0)
main-calls_example = main-calls (codes "/") events 1

-- A client whose next id is the last one.
abbrev last : Client
last = record { posted = (post_all (codes "/")).posted; resolving = []; conn_id = 65535 }

run-ids_example : get_elem? (ids (run last events).effects) 1 ≡ some ((65535 + 1) % 2 ^ 16)
unfolding run post_all
run-ids_example = run-ids last events 1 (omega arith) (omega arith)
