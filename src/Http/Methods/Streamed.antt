-- ===== src/Http/Methods/Streamed.antt =====
-- cpp/restinio/client_custom_http_methods.cpp: `create_http_request`, which is written again there, over
-- a method that carries its name.
use smoll.Base.{
  ◌≡◌, codes, List, ◌∷◌, ◌++◌, decimal, length, [], append_assoc, append-nil, sym, ◌∙◌, Bytes,
}
use smoll.Http.Request.{
  Outcome, ok, ◌>>=◌, Header, Field, ConnectionHeader, connection_text, create_http_request, crlf,
  field_line, field_lines, body_text,
}
use smoll.Http.Request.{keep_alive}
use smoll.Http.Arguments.{Restinio, header_fields, port_of}
use smoll.Http.Methods.{MethodId, Numbers, StandardMethods, custom_method_of}

-- The loop over the fields, with what the stream holds so far.
unfoldable pub stream_fields : Bytes → List Field → Bytes
stream_fields out [] = out
stream_fields out (f ∷ fs) = stream_fields ((((out ++ f.name) ++ codes ": ") ++ f.value) ++ crlf) fs

-- `if (!body.empty())`, and the CRLF that ends the request.
unfoldable pub stream_body : Bytes → Bytes → Bytes
stream_body out [] = out ++ crlf
stream_body out (b ∷ bs) =
    ((((out ++ codes "Content-Length: ") ++ decimal (length (b ∷ bs))) ++ (crlf ++ crlf))
      ++ (b ∷ bs))
    ++ crlf

-- The request line.
unfoldable pub stream_line : Bytes → Header MethodId → Bytes
stream_line out h =
    (((((((out ++ h.method.name) ++ codes " ") ++ h.target) ++ codes " ") ++ codes "HTTP/")
        ++ decimal h.major)
      ++ codes ".")
    ++ decimal h.minor
    ++ crlf

-- `create_http_request` of this program: `request` is a stream that grows at its end. The text of a
-- method is what its `c_str()` points to.
unfoldable pub create_custom_request :
    Header MethodId → List Field → ConnectionHeader → Bytes → Outcome Bytes
unfolding stream_line stream_fields stream_body connection_text
create_custom_request h fields connection body =
    let request = stream_fields (stream_line [] h) fields in
    do
      conn_str ← connection_text connection
      ok (stream_body (((request ++ codes "Connection: ") ++ conn_str) ++ crlf) body)

stream_fields-append :
    (out : Bytes) (fs : List Field) → stream_fields out fs ≡ out ++ field_lines fs
unfolding stream_fields field_lines field_line
stream_fields-append out [] = sym (append-nil out)
stream_fields-append out (f ∷ fs) =
    stream_fields-append ((((out ++ f.name) ++ codes ": ") ++ f.value) ++ crlf) fs
    ∙ simp append_assoc

stream_body-append : (out body : Bytes) → stream_body out body ≡ out ++ body_text body
unfolding stream_body body_text
stream_body-append out [] = λ i. out ++ crlf
stream_body-append out (b ∷ bs) = simp append_assoc

-- The request that this program writes piece by piece at the end of a stream is the one of
-- client.cpp, for the same names of the methods, the exception included.
pub create_custom_request-same :
    (h : Header MethodId) (fields : List Field) (connection : ConnectionHeader) (body : Bytes)
    → create_custom_request h fields connection body
      ≡ create_http_request (λ m. m.name) h fields connection body
unfolding create_custom_request create_http_request
create_custom_request-same h fields connection body = simp (
  stream_body-append, stream_fields-append, append_assoc, create_custom_request,
  create_http_request,
)

-- The request that `main` makes. Of restinio, the names of the fields and the version are used.
unfoldable pub custom_request_of :
    {M : Type 0}
    → Restinio M
    → Numbers
    → StandardMethods
    → Bytes
    → Bytes
    → Bytes
    → Bytes
    → Bytes
    → Outcome Bytes
custom_request_of lib ids std method_str addr port_text target body = do
  method ← custom_method_of ids std method_str
  create_custom_request
      (record { method = method; target = target; major = lib.major; minor = lib.minor })
      (header_fields lib addr (port_of port_text)) keep_alive body
