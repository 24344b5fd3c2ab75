-- ===== src/Proxy/Restinio/Received.antt =====
-- What restinio makes of a request of restinio/client.cpp: the laws of its server, and the fields.
use smoll.Base.{
  ℕ, ◌+◌, ◌<◌, All, ◌≡◌, refl, List, [], ◌∷◌, ◌++◌, map, ◌&&◌, Option, none, some, Bytes, codes,
  leb, if◌then◌else◌, same_text, decimal, length, Lacks,
}
use smoll.Http.Request.{ok, Field}
use smoll.Http.Request.Reader.{Message, OneLine}
use smoll.Http.Request.Lines.{version_text, connection_field, length_fields}
use smoll.Http.Arguments.{Restinio, port_of, method_of, header_fields}
use smoll.Http.Arguments.Sent.{header_of, intended}
use smoll.Proxy.Restinio.Lifecycle.{Method, method_get, method_post}

abbrev lower : ℕ → ℕ
lower c = if leb b'A' c && leb c b'Z' then c + 32 else c

-- The value of the first field of a name, which is given in lower case.
unfoldable pub field_value : Bytes → List Field → Option Bytes
field_value name [] = none
field_value name (f ∷ fs) =
    let later = field_value name fs in
    if same_text (map lower f.name) name then some f.value else later

-- One segment of a path, with no query and no fragment, as a request line can hold it: no byte of it is
-- a space or a control character, and none is past ASCII.
pub record IsSegment (text : Bytes) : Type 0 where
  pub no_slash : Lacks b'/' text
  pub no_query : Lacks b'?' text
  pub no_fragment : Lacks b'#' text
  pub no_space : Lacks b' ' text
  pub one_line : OneLine text
  pub visible : All (λ c. (32 < c) × (c < 127)) text

-- What restinio documents of a request in HTTP/1.1 without a transfer encoding, whose target is one
-- segment: a GET of no length has no body, and the body of a POST is as long as its Content-Length.
pub record IsRestinioServer (receive : Message → Option (Method × Bytes × Bytes)) : Type 0 where
  pub takes_get :
      (m : Message) (text : Bytes)
      → IsSegment text
      → m.method ≡ codes "GET"
      → m.version ≡ codes "HTTP/1.1"
      → m.target ≡ b'/' ∷ text
      → field_value (codes "transfer-encoding") m.fields ≡ none
      → field_value (codes "content-length") m.fields ≡ none
      → receive m ≡ some (method_get, b'/' ∷ text, [])
  pub takes_post :
      (m : Message) (text body more : Bytes)
      → IsSegment text
      → m.method ≡ codes "POST"
      → m.version ≡ codes "HTTP/1.1"
      → m.target ≡ b'/' ∷ text
      → field_value (codes "transfer-encoding") m.fields ≡ none
      → field_value (codes "content-length") m.fields ≡ some (decimal (length body))
      → m.rest ≡ body ++ more
      → receive m ≡ some (method_post, b'/' ∷ text, body)

-- The texts and the version of the client's restinio.
pub record IsStandard {M : Type 0} (lib : Restinio M) : Type 0 where
  pub get_text : lib.method_to_string lib.http_get ≡ codes "GET"
  pub post_text : lib.method_to_string lib.http_post ≡ codes "POST"
  pub host_text : lib.host ≡ codes "Host"
  pub agent_text : lib.user_agent ≡ codes "User-Agent"
  pub accept_text : lib.accept ≡ codes "Accept"
  pub version_one : lib.major ≡ 1
  pub version_minor : lib.minor ≡ 1

module _ {M : Type 0} (lib : Restinio M) (standard : IsStandard lib) (addr port_text : Bytes) where
  abbrev sent_fields : Bytes → List Field
  sent_fields body =
      header_fields lib addr (port_of port_text)
      ++ connection_field (codes "keep-alive") ∷ length_fields body

  pub sent-encoding :
      (body : Bytes) → field_value (codes "transfer-encoding") (sent_fields body) ≡ none
  unfolding field_value header_fields connection_field length_fields same_text
  sent-encoding [] = rw (standard.host_text, standard.agent_text, standard.accept_text)
  sent-encoding (b ∷ bs) = rw (standard.host_text, standard.agent_text, standard.accept_text)

  pub sent-no_length : field_value (codes "content-length") (sent_fields []) ≡ none
  unfolding field_value header_fields connection_field length_fields same_text
  sent-no_length = rw (standard.host_text, standard.agent_text, standard.accept_text)

  pub sent-length :
      (b : ℕ) (bs : Bytes)
      → field_value (codes "content-length") (sent_fields (b ∷ bs))
        ≡ some (decimal (length (b ∷ bs)))
  unfolding field_value header_fields connection_field length_fields same_text
  sent-length b bs = rw (standard.host_text, standard.agent_text, standard.accept_text)

  pub version-standard :
      (m : M) (target : Bytes) → version_text (header_of lib m target) ≡ codes "HTTP/1.1"
  unfolding version_text
  version-standard m target =
      rw (standard.version_one, standard.version_minor) (unfold decimal in refl)

  pub get-known : method_of lib (codes "get") ≡ ok lib.http_get
  unfolding method_of same_text
  get-known = refl

  pub post-known : method_of lib (codes "post") ≡ ok lib.http_post
  unfolding method_of same_text
  post-known = refl

  -- restinio takes the message that a get means for a get without a body.
  pub received-get :
      (receive : Message → Option (Method × Bytes × Bytes)) (server : IsRestinioServer receive)
      (text : Bytes)
      → IsSegment text
      → receive (intended lib addr port_text (b'/' ∷ text) [] lib.http_get)
        ≡ some (method_get, b'/' ∷ text, [])
  received-get receive server text seg =
      server.takes_get (intended lib addr port_text (b'/' ∷ text) [] lib.http_get) text seg
        standard.get_text (version-standard lib.http_get (b'/' ∷ text)) refl (sent-encoding [])
        sent-no_length
