-- ===== src/Opendht/Tests.antt =====
-- The readers and the put loop on small inputs: the theorems at concrete inputs.
use smoll.Base.{
  ℕ, zero, suc, ◌≡◌, refl, List, [], ◌∷◌, ◌++◌, true, false, none, some, Bytes, codes,
  if◌then◌else◌, ◌==◌, length, arith, Lacks,
}
use smoll.Opendht.BodyLines.{Parse, parsed, unparsable}
use smoll.Opendht.BodyLines.Streams.{IsReadable}
use smoll.Opendht.PutGet.{Outcome, finished, put_all, print_values}
use smoll.Opendht.PutGet.Puts.{put_values, put_all_in_order}
use smoll.Proxy.Restinio
use smoll.Proxy.Restinio.{Dht, Server, run, step}
use smoll.Proxy.Restinio.Streams.{found}
use smoll.Opendht.Requests.{
  Response, Request, Event, status, receiving, other, body_piece, state_change, done, Looped,
  looped, http_main,
}
use smoll.Opendht.Requests.Values.{printed, http_main-printed}
use smoll.Proxy.Restinio.Contents.{value_lines, streamed}

-- A line of digits only is read, as itself.
abbrev parse : Bytes → Parse Bytes
parse [] = unparsable
parse (c ∷ s) = if c == b'!' then unparsable else parsed (c ∷ s)

-- Values are numbers, written as that many stars behind a plus sign.
abbrev stars : ℕ → Bytes
stars zero = []
stars (suc n) = b'*' ∷ stars n

stars-Lacks : (n : ℕ) → Lacks b'\n' (stars n)
stars-Lacks zero = tt
stars-Lacks (suc n) = (omega arith, stars-Lacks n)

abbrev dht : Dht Bytes ℕ Bytes ℕ
dht = record {
  parse_hash = λ t. none;
  hash_of = λ t. t;
  write_value = λ v. b'+' ∷ stars v;
  parse_json = λ t. some t;
  value_of = λ j. some (length j);
  has_permanent = λ j. false;
  ipv4_good = λ n. n;
  ipv6_good = λ n. n;
  write_info = λ n ip. ip;
}

dht-IsReadable : IsReadable dht parse (λ v. b'+' ∷ stars v)
dht-IsReadable = record { line_free = λ v. (omega arith, stars-Lacks v); parses = λ v. refl }

abbrev idle : Server Bytes ℕ ℕ
idle = record { request_count = 0; node_info = 0; gets = []; puts = [] }

abbrev found_response : Response
found_response = record { status_code = 200; body = [] }

-- What comes before the end: the state, the status, and the body in two pieces.
abbrev reports : List Event
reports =
    state_change (other 3) found_response
    ∷ status 200
    ∷ state_change receiving found_response
    ∷ body_piece (codes "+**\n+\n")
    ∷ body_piece (codes "+*\n")
    ∷ []

abbrev two_pieces : Request Bytes Bytes → List Event
two_pieces r = reports ++ state_change done found_response ∷ []

-- Two gets by turns; the second one asks for the values that are printed.
abbrev two_gets : List (Restinio.Event ℕ ℕ)
two_gets =
    Restinio.asks_get 3 (codes "j")
    ∷ Restinio.asks_get 4 (codes "k")
    ∷ Restinio.finds_value 0 2
    ∷ Restinio.finds_value 1 7
    ∷ Restinio.finds_value 0 0
    ∷ Restinio.ends_get 1
    ∷ Restinio.finds_value 0 1
    ∷ Restinio.ends_get 0
    ∷ []

http_main-printed_example :
    (codes "+**\n+\n+*\n" ≡ streamed dht 4 (run dht idle two_gets).1)
    × (l : Looped Bytes) × (http_main parse two_pieces (codes "u" ∷ []) ≡ looped l)
    × (l.stopped ≡ true)
    × (printed l.output ≡ codes "+**" ∷ codes "+" ∷ codes "+*" ∷ [])
unfolding value_lines found run step
http_main-printed_example =
    http_main-printed dht parse (λ v. b'+' ∷ stars v) dht-IsReadable two_pieces (codes "u") [] 4
      idle two_gets ((2 ∷ 0 ∷ []) ∷ (1 ∷ []) ∷ []) reports [] found_response refl
      (refl, (refl, (refl, (refl, (refl, tt))))) refl refl

abbrev argv : List Bytes
argv = codes "./run" ∷ codes "key" ∷ codes "a" ∷ codes "b" ∷ []

put_all_in_order_example :
    (p : Outcome) × (put_all (λ i. true) argv ≡ some p)
    × (put_values p.acts ≡ codes "a" ∷ codes "b" ∷ [])
    × (p.ending ≡ finished)
put_all_in_order_example = put_all_in_order (λ i. true) argv (omega arith)

values_cut : print_values ((codes "ab" ++ 0 ∷ codes "c") ∷ []) ≡ codes "ab" ∷ []
unfolding print_values
values_cut = refl
