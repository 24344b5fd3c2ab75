-- ===== src/Proxy/Restinio/Fixtures.antt =====
-- The data that the tests of the proxy share: a small DHT whose hashes, values and JSON are texts.
use smoll.Base.{
  ℕ, ◌≡◌, refl, [], ◌∷◌, false, Option, none, some, Bytes, codes, take, take-append, value_from,
  value_from-decimal, length, if◌then◌else◌, arith, same_text, Lacks, ◌==◌,
}
use smoll.Proxy.Restinio.{Dht, Server}
use smoll.Http.Request.Reader.{Message}
use smoll.Proxy.Restinio.Received.{field_value, IsRestinioServer, IsSegment, IsStandard}
use smoll.Http.Fixtures.{verbs}
use smoll.Proxy.Restinio.Lifecycle.{Method, method_get, method_post, root, IsExpress}

-- A text is JSON unless it begins with '!'.
abbrev pub parse : Bytes → Option Bytes
parse [] = none
parse (c ∷ s) = if c == b'!' then none else some (c ∷ s)

-- A text names a hash if it begins with '~'.
abbrev pub named : Bytes → Option Bytes
named [] = none
named (c ∷ s) = if c == b'~' then some (c ∷ s) else none

-- A list is no value.
abbrev pub value_in : Bytes → Option Bytes
value_in [] = some []
value_in (c ∷ s) = if c == b'[' then none else some (c ∷ s)

abbrev pub dht : Dht Bytes Bytes Bytes ℕ
dht = record {
  parse_hash = named;
  hash_of = λ t. b'~' ∷ t;
  write_value = λ v. v;
  parse_json = parse;
  value_of = value_in;
  has_permanent = λ j. false;
  ipv4_good = λ n. n;
  ipv6_good = λ n. 0;
  write_info = λ n ip. ip;
}

abbrev pub idle : Server Bytes Bytes ℕ
idle = record { request_count = 0; node_info = 2; gets = []; puts = [] }

-- A router for the two patterns.
abbrev pub without_slash : Bytes → Option Bytes
without_slash [] = some []
without_slash (c ∷ s) =
    let rest = without_slash s in
    if c == b'/' then none else elim rest [ none ↦ none | some t ↦ some (c ∷ t) ]

abbrev pub segment : Bytes → Option Bytes
segment [] = none
segment (c ∷ []) = none
segment (c ∷ d ∷ s) = without_slash (d ∷ s)

abbrev pub matches : Bytes → Bytes → Option Bytes
matches p path =
    if same_text p root then if same_text path root then some [] else none else segment path

without_slash-Lacks : (s : Bytes) → Lacks b'/' s → without_slash s ≡ some s
without_slash-Lacks [] h = refl
without_slash-Lacks (c ∷ s) h = ground (arith, without_slash-Lacks s h.1, h.0)

pub matches-IsExpress : IsExpress matches
unfolding same_text
matches-IsExpress = record {
  root_fits = refl;
  root_only = λ c s. refl;
  hash_fits = λ c s h. without_slash-Lacks (c ∷ s) h;
  hash_only = refl;
}

-- A server that tells a GET from a POST, and cuts the body of the latter by its length.
abbrev pub posted_body : Option Bytes → Message → Option (Method × Bytes × Bytes)
posted_body none m = none
posted_body (some n) m = some (method_post, m.target, take (value_from 0 n) m.rest)

unfoldable pub receive : Message → Option (Method × Bytes × Bytes)
receive m =
    if same_text m.method (codes "GET")
    then some (method_get, m.target, [])
    else posted_body (field_value (codes "content-length") m.fields) m

pub receive-IsRestinioServer : IsRestinioServer receive
unfolding receive same_text
receive-IsRestinioServer = record {
  takes_get = λ m text seg is_get v path enc len. rw (is_get, path, receive);
  takes_post = λ m text body more seg is_post v path enc len rest.
      rw (
        is_post,
        path,
        len,
        value_from-decimal (length body),
        rest,
        take-append body more,
        receive,
      );
}

pub key-IsSegment : IsSegment (codes "key")
key-IsSegment = record {
  no_slash = omega arith;
  no_query = omega arith;
  no_fragment = omega arith;
  no_space = omega arith;
  one_line = omega arith;
  visible = omega arith;
}

pub named_key-IsSegment : IsSegment (codes "~key")
named_key-IsSegment = record {
  no_slash = omega arith;
  no_query = omega arith;
  no_fragment = omega arith;
  no_space = omega arith;
  one_line = omega arith;
  visible = omega arith;
}

pub verbs-IsStandard : IsStandard verbs
verbs-IsStandard = record {
  get_text = refl;
  post_text = refl;
  host_text = refl;
  agent_text = refl;
  accept_text = refl;
  version_one = refl;
  version_minor = refl;
}
