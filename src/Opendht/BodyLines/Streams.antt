-- ===== src/Opendht/BodyLines/Streams.antt =====
-- The client's callback on what the proxy streams, and on a body with a bad line.
use smoll.Base.{
  ℕ, ◌≡◌, refl, List, [], ◌∷◌, ◌++◌, map, Bytes, codes, get_lines, get_lines-append, Lacks, All,
  append_assoc,
}
use smoll.Opendht.BodyLines.{Parse, parsed, unparsable, Ending, on_lines, on_body}
use smoll.Proxy.Restinio.{Dht, Server, asks_get, run}
use smoll.Proxy.Restinio.Contents.{value_lines, streamed, answered, get_streams}

module _ {J : Type 0} (parse : Bytes → Parse J) where
  -- A line, and the value that it is read as.
  abbrev pub IsRead : Bytes × J → Type 0
  IsRead p = Lacks b'\n' p.0 × (parse p.0 ≡ parsed p.1)

  pub joined : List (Bytes × J) → Bytes
  joined [] = []
  joined (p ∷ ps) = p.0 ++ b'\n' ∷ joined ps

  abbrev pub values : List (Bytes × J) → List J
  values ps = map (λ p. p.1) ps

  on_body-append :
      (p : Bytes × J) (rest : Bytes)
      → IsRead p
      → on_body parse (p.0 ++ b'\n' ∷ rest) ≡ record {
        printed = p.1 ∷ (on_body parse rest).printed;
        ending = (on_body parse rest).ending;
      }
  unfolding on_body
  on_body-append p rest h = rw (get_lines-append b'\n' p.0 rest h.0, on_lines, h.1) refl

  -- Lines that parse are printed in order, up to the first one that does not: with it the callback
  -- ends, and what follows in the same piece of the body is not printed.
  pub on_body_stops :
      (ps : List (Bytes × J)) (bad rest : Bytes)
      → All IsRead ps
      → Lacks b'\n' bad
      → parse bad ≡ unparsable
      → on_body parse (joined ps ++ (bad ++ b'\n' ∷ rest))
        ≡ record { printed = values ps; ending = Ending.parse_failed }
  unfolding on_body joined
  on_body_stops [] bad rest h clean e = rw (get_lines-append b'\n' bad rest clean, on_lines, e) refl
  on_body_stops (p ∷ ps) bad rest h clean e =
      rw
        (
          append_assoc p.0 (b'\n' ∷ joined ps) (bad ++ b'\n' ∷ rest),
          on_body-append p (joined ps ++ (bad ++ b'\n' ∷ rest)) h.0,
          on_body_stops ps bad rest h.1 clean e,
        )
        refl

-- The client reads the JSON that the proxy writes of each value, which has no line break.
pub record IsReadable {H V J N K : Type 0} (dht : Dht H V J N) (parse : Bytes → Parse K)
    (json_of : V → K) : Type 0 where
  pub line_free : (v : V) → Lacks b'\n' (dht.write_value v)
  pub parses : (v : V) → parse (dht.write_value v) ≡ parsed (json_of v)

module _ {H V J N K : Type 0} (dht : Dht H V J N) (parse : Bytes → Parse K) (json_of : V → K)
    (law : IsReadable dht parse json_of) where
  pub on_body-value_lines :
      (vs : List V)
      → on_body parse (value_lines dht vs)
        ≡ record { printed = map json_of vs; ending = Ending.whole }
  unfolding on_body value_lines on_lines get_lines
  on_body-value_lines [] = refl
  on_body-value_lines (v ∷ vs) =
      rw
        (
          append_assoc (dht.write_value v) (codes "\n") (value_lines dht vs),
          on_body-append parse (dht.write_value v, json_of v) (value_lines dht vs)
              (law.line_free v, law.parses v),
          on_body-value_lines vs,
        )
        refl

  -- Where the client reads what the proxy writes of a value, its callback prints, of all that the
  -- proxy streams for a get, every value that the node finds, in that order and no other, and comes
  -- to the end of the text.
  pub on_body-streamed :
      (id : ℕ) (hash : Bytes) (s : Server H V N) (vs : List V)
      → on_body parse (streamed dht id (run dht s (asks_get id hash ∷ answered dht vs)).1)
        ≡ record { printed = map json_of vs; ending = Ending.whole }
  on_body-streamed id hash s vs = rw (get_streams dht id hash s vs).1 (on_body-value_lines vs)
