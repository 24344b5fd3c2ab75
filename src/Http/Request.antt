-- ===== src/Http/Request.antt =====
-- cpp/restinio/client.cpp and client_custom_http_methods.cpp: `create_http_request`. The header and
-- field types are restinio's: a header is its fields, and the text of a method is a parameter.
pub mod Head
pub mod Reader
pub mod Lines
pub mod RoundTrip
use smoll.Base.{ℕ, ◌≡◌, refl, List, [], ◌∷◌, ◌++◌, Bool, true, false, Bytes, codes, decimal, length}

-- `throw std::invalid_argument(what)`.
pub data Outcome (A : Type 0) : Type 0 where
  ok : A → Outcome A
  invalid_argument : Bytes → Outcome A

infixl 5 ◌>>=◌
abbrev pub ◌>>=◌ : {A B : Type 0} → Outcome A → (A → Outcome B) → Outcome B
ok a >>= f = f a
invalid_argument what >>= f = invalid_argument what

-- `restinio::http_request_header_t`.
pub record Header (M : Type 0) : Type 0 where
  pub method : M
  pub target : Bytes
  pub major : ℕ
  pub minor : ℕ

-- `restinio::http_header_field_t`.
pub record Field : Type 0 where
  pub name : Bytes
  pub value : Bytes

-- `restinio::http_connection_header_t`.
pub data ConnectionHeader : Type 0 where
  keep_alive close upgrade : ConnectionHeader

abbrev pub crlf : Bytes
crlf = 13 ∷ 10 ∷ []

-- The request line, up to its CRLF.
unfoldable pub request_line : {M : Type 0} → (M → Bytes) → Header M → Bytes
request_line method_to_string h =
    method_to_string h.method
    ++ (codes " "
        ++ (h.target
            ++ (codes " "
                ++ (codes "HTTP/" ++ (decimal h.major ++ (codes "." ++ decimal h.minor))))))

-- `header_field.name() << ": " << header_field.value()`.
unfoldable pub field_line : Field → Bytes
field_line f = f.name ++ (codes ": " ++ f.value)

-- The loop over the fields.
unfoldable pub field_lines : List Field → Bytes
unfolding field_line
field_lines [] = []
field_lines (f ∷ fs) = field_line f ++ (crlf ++ field_lines fs)

-- The `switch`.
unfoldable pub connection_text : ConnectionHeader → Outcome Bytes
connection_text ConnectionHeader.keep_alive = ok (codes "keep-alive")
connection_text ConnectionHeader.close = ok (codes "close")
connection_text ConnectionHeader.upgrade = invalid_argument (codes "upgrade")

-- `if (!body.empty())`, and the CRLF that ends the request.
unfoldable pub body_text : Bytes → Bytes
body_text [] = crlf
body_text (b ∷ bs) =
    codes "Content-Length: "
    ++ (decimal (length (b ∷ bs)) ++ (crlf ++ (crlf ++ ((b ∷ bs) ++ crlf))))

unfoldable pub create_http_request :
    {M : Type 0} → (M → Bytes) → Header M → List Field → ConnectionHeader → Bytes → Outcome Bytes
unfolding request_line field_lines connection_text body_text
create_http_request method_to_string h fields connection body = do
  conn_str ← connection_text connection
  ok (
      request_line method_to_string h
      ++ (crlf
          ++ (field_lines fields
              ++ (codes "Connection: " ++ (conn_str ++ (crlf ++ body_text body))))))
