-- ===== src/Proxy/Tests.antt =====
-- The proxy on pistache with a node that finds two values.
use smoll.Base.{◌≡◌, refl, [], ◌∷◌, Option, none, some, Bytes, codes, get_lines, arith}
use smoll.Proxy.Pistache
use smoll.Proxy.Pistache.Serving

abbrev node : Pistache.Node Bytes
node = record { parse_hash = λ t. none; hash_of = λ t. t; find = λ h. codes "a" ∷ codes "bc" ∷ [] }

-- The path without its slash.
abbrev matches : Bytes → Bytes → Option Bytes
matches resource [] = none
matches resource (c ∷ s) = some s

matches-IsRest : Serving.IsRest node matches
matches-IsRest = record { segment_fits = λ c s h. refl }

serve_values_example :
    (a : Pistache.Answer) × (Serving.serve node matches Serving.routes Serving.method_get
        (codes "/k")
        []
      ≡ some a)
    × (get_lines b',' a.body ≡ codes "a" ∷ codes "bc" ∷ [])
    × (Serving.serve node matches Serving.routes Serving.method_put (codes "/k") []
        ≡ some (record { body = []; is_plain = some (codes "text/plain") }))
    × (Serving.serve node matches Serving.routes Serving.method_other (codes "/k") [] ≡ none)
serve_values_example =
    Serving.serve_values node matches b'k' [] [] matches-IsRest (omega arith, tt)
      (
        ((omega arith, tt), (omega arith, tt)),
        (((omega arith, (omega arith, tt)), (omega arith, (omega arith, tt))), tt),
      )
