-- ===== src/Proxy/Pistache.antt =====
-- cpp/opendht/dhtproxyserver/proxy_pistache.cpp: the two handlers. The DHT node is a parameter: what
-- it finds under a hash.
pub mod Serving
use smoll.Base.{
  ℕ, ◌≡◌, refl, ap, ◌∙◌, List, [], ◌∷◌, ◌++◌, Option, none, some, Bytes, codes, c_str, c_str-Lacks,
  get_lines, get_lines-append, Lacks, Lacks-append, All, arith,
}

pub record Node (H : Type 0) : Type 0 where
  pub parse_hash : Bytes → Option H
  pub hash_of : Bytes → H
  pub find : H → List Bytes

-- The answers are all of code `Ok`; `put` names its type.
pub record Answer : Type 0 where
  pub body : Bytes
  pub is_plain : Option Bytes

-- The loop over the values.
unfoldable pub joined : List Bytes → Bytes
joined [] = []
joined (value ∷ values) = value ++ (codes "," ++ joined values)

module _ {H : Type 0} (node : Node H) where
  -- `InfoHash infoHash(hash); if (!infoHash) infoHash = InfoHash::get(hash);`
  unfoldable pub hash_for : Bytes → H
  hash_for hash = elim (node.parse_hash hash) [ none ↦ node.hash_of hash | some h ↦ h ]

  -- `response.send(Ok, data.c_str())`.
  unfoldable pub get : Bytes → Answer
  unfolding joined hash_for c_str
  get hash = record { body = c_str (joined (node.find (hash_for hash))); is_plain = none }

  -- The node is not asked to store anything.
  unfoldable pub put : Bytes → Bytes → Answer
  put hash body = record { body = body; is_plain = some (codes "text/plain") }

-- A value that the separator and the end of a C string do not occur in.
abbrev pub IsPlain : Bytes → Type 0
IsPlain value = Lacks b',' value × Lacks 0 value

joined-Lacks : (values : List Bytes) → All IsPlain values → Lacks 0 (joined values)
unfolding joined
joined-Lacks [] h = tt
joined-Lacks (value ∷ values) h =
    Lacks-append 0 value (codes "," ++ joined values) h.0.1
      ((λ e. absurd (omega arith)), joined-Lacks values h.1)

get_lines-joined :
    (values : List Bytes) → All IsPlain values → get_lines b',' (joined values) ≡ values
unfolding joined get_lines
get_lines-joined [] h = refl
get_lines-joined (value ∷ values) h =
    get_lines-append b',' value (joined values) h.0.0
    ∙ ap (λ l. value ∷ l) (get_lines-joined values h.1)

-- Where no value that the node finds has a comma or a NUL in it, the body of a get, cut at its commas,
-- is the list of the values found, in their order.
pub get_lines-get :
    {H : Type 0} (node : Node H) (hash : Bytes)
    → All IsPlain (node.find (hash_for node hash))
    → get_lines b',' (get node hash).body ≡ node.find (hash_for node hash)
unfolding get
get_lines-get node hash h =
    rw (c_str-Lacks (joined (node.find (hash_for node hash))) (joined-Lacks _ h))
      (get_lines-joined (node.find (hash_for node hash)) h)
