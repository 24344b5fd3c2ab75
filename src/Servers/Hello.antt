-- ===== src/Servers/Hello.antt =====
-- cpp/server/httpserver_restinio.cpp and libhttpserver.cpp: the servers of one text. What a library does
-- with a request that its handler does not take is its own.
use smoll.Base.{
  ℕ, ◌≡◌, ◌≢◌, refl, same_text_ne, List, [], ◌∷◌, Bool, true, Option, none, some, Bytes, codes,
  if◌then◌else◌, same_text,
}

-- httpserver_restinio.cpp: the settings, and the body with which the handler answers any request.
pub record Settings : Type 0 where
  pub port : ℕ
  pub address : Bytes
  pub request_handler : Bytes → Bytes → Bytes

abbrev request_handler : Bytes → Bytes → Bytes
request_handler method target = codes "Hello, World!"

unfoldable pub on_this_thread : Settings
on_this_thread = record {
  port = 8080;
  address = codes "localhost";
  request_handler = request_handler;
}

-- libhttpserver.cpp: the text of `render`, the resources by their paths, and the calls of `main`.
pub data Resource : Type 0 where
  resource : Resource

abbrev render : Resource → Bytes
render resource = codes "hello world!"

pub data Call : Type 0 where
  create_webserver : ℕ → Call
  register_resource : Bytes → Resource → Call
  start : Bool → Call

abbrev main_calls : List Call
main_calls = create_webserver 8080 ∷ register_resource (codes "/hello") resource ∷ start true ∷ []

-- The resource that some calls have registered for a path. libhttpserver takes the one of that path.
unfoldable pub registered : List Call → Bytes → Option Resource
registered [] path = none
registered (register_resource url r ∷ calls) path =
    let later = registered calls path in if same_text url path then some r else later
registered (create_webserver port ∷ calls) path = registered calls path
registered (start blocking ∷ calls) path = registered calls path

unfoldable pub answer : Bytes → Option Bytes
unfolding registered
answer path = elim (registered main_calls path) [ none ↦ none | some r ↦ some (render r) ]

-- The path of the resource has its text, and no other path has one.
hello_only :
    (path : Bytes)
    → codes "/hello" ≢ path
    → (answer (codes "/hello") ≡ some (codes "hello world!")) × (answer path ≡ none)
unfolding answer same_text
hello_only path other = (refl, rw (same_text_ne (codes "/hello") path other) refl)
