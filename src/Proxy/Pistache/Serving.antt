-- ===== src/Proxy/Pistache/Serving.antt =====
-- proxy_pistache.cpp: the routes that the constructor sets up, and the requests that they take.
use smoll.Base.{
  ◌≡◌, ℕ, refl, List, [], ◌∷◌, Bool, true, false, Option, none, some, Bytes, codes, get_lines,
  if◌then◌else◌, All, Lacks,
}
use smoll.Proxy.Pistache.{Node, Answer, IsPlain, hash_for, get, put, get_lines-get}

pub data Method : Type 0 where
  method_get method_put method_other : Method

pub data Handler : Type 0 where
  to_get to_put : Handler

pub record Route : Type 0 where
  pub method : Method
  pub resource : Bytes
  pub handler : Handler

abbrev pub hash_resource : Bytes
hash_resource = codes "/:hash"

-- The routes, in the order of the calls.
unfoldable pub routes : List Route
routes =
    record { method = method_get; resource = hash_resource; handler = to_get }
    ∷ record { method = method_put; resource = hash_resource; handler = to_put }
    ∷ []

abbrev same_method : Method → Method → Bool
same_method method_get method_get = true
same_method method_put method_put = true
same_method method_other method_other = true
same_method _ _ = false

-- `matches resource path` is pistache's: the value of the parameter, if the path fits.
module _ {H : Type 0} (node : Node H) (matches : Bytes → Bytes → Option Bytes) where
  abbrev pub answer : Handler → Bytes → Bytes → Answer
  answer to_get hash body = get node hash
  answer to_put hash body = put node hash body

  -- What no route takes, pistache turns down by itself: `none`.
  unfoldable pub serve : List Route → Method → Bytes → Bytes → Option Answer
  serve [] m path body = none
  serve (r ∷ rs) m path body =
      let rest = serve rs m path body in
      if same_method r.method m
      then elim (matches r.resource path) [
        | none ↦ rest
        | some hash ↦ some (answer r.handler hash body)
      ]
      else rest

  -- What pistache documents: a parameter takes one segment.
  pub record IsRest : Type 0 where
    pub segment_fits :
        (c : ℕ) (s : Bytes)
        → Lacks b'/' (c ∷ s)
        → matches hash_resource (b'/' ∷ c ∷ s) ≡ some (c ∷ s)

  -- Take a router that fits a path of one segment. A get of the path of a hash is answered, and where no value that the node finds has a comma or a
  -- NUL in it, the body cut at its commas is the list of the values found. A put to that path is
  -- answered by its own body as plain text, and any other method is turned down.
  pub serve_values :
      (c : ℕ) (s body : Bytes)
      → IsRest
      → Lacks b'/' (c ∷ s)
      → All IsPlain (node.find (hash_for node (c ∷ s)))
      → (a : Answer) × (serve routes method_get (b'/' ∷ c ∷ s) body ≡ some a)
        × (get_lines b',' a.body ≡ node.find (hash_for node (c ∷ s)))
        × (serve routes method_put (b'/' ∷ c ∷ s) body
            ≡ some (record { body = body; is_plain = some (codes "text/plain") }))
        × (serve routes method_other (b'/' ∷ c ∷ s) body ≡ none)
  unfolding serve routes put
  serve_values c s body law h plain =
      let fits = law.segment_fits c s h in
      (get node (c ∷ s), rw (fits) refl, get_lines-get node (c ∷ s) plain, rw (fits) refl, refl)
