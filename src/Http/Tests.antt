-- ===== src/Http/Tests.antt =====
-- Requests written and read: tests, and the theorems at concrete inputs.
use smoll.Base.{◌≡◌, refl, List, [], ◌∷◌, ◌++◌, some, Bytes, codes, decimal, arith}
use smoll.Async.Net.{success, eof}
use smoll.Http.Request.{ok, Header, Field, keep_alive, create_http_request, connection_text}
use smoll.Http.Request.Reader.{read_message}
use smoll.Http.Request.Lines.{version_text, connection_field, length_fields, sent_body}
use smoll.Http.Request.RoundTrip.{read_message-create}
use smoll.Http.Exchange.{finished, do_request}
use smoll.Http.Fixtures.{keeper}

abbrev post_header : Header Bytes
post_header = record { method = codes "POST"; target = codes "/key"; major = 1; minor = 1 }

abbrev fields : List Field
fields = record { name = codes "Accept"; value = codes "*/*" } ∷ []

decimal_test : decimal 6174 ≡ codes "6174"
unfolding decimal
decimal_test = refl

read_message-create_example :
    (text : Bytes) × (create_http_request (λ m. m) post_header fields keep_alive (codes "hi")
      ≡ ok text)
    × (read_message text
        ≡ some (record {
          method = codes "POST";
          target = codes "/key";
          version = version_text post_header;
          fields = fields ++ connection_field (codes "keep-alive") ∷ length_fields (codes "hi");
          rest = sent_body (codes "hi");
        }))
unfolding connection_text
read_message-create_example =
    read_message-create (λ m. m) post_header fields keep_alive (codes "hi") (codes "keep-alive")
      (omega arith) (omega arith) refl

whole_response :
    do_request keeper (codes "HE") ((codes "AD", success) ∷ ([], eof) ∷ []) []
    ≡ some (record { parser = codes "HEAD"; complaints = 0; ending = finished })
unfolding do_request
whole_response = refl

-- A response that came with its head is not looked at.
short_response :
    do_request keeper (codes "HEAD") (([], eof) ∷ []) []
    ≡ some (record { parser = []; complaints = 0; ending = finished })
unfolding do_request
short_response = refl
