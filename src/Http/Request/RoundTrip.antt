-- ===== src/Http/Request/RoundTrip.antt =====
-- What a reader of HTTP messages finds in the text of `create_http_request`.
use smoll.Base.{
  ℕ, ◌≡◌, ◌≢◌, ap, ◌∙◌, List, [], ◌∷◌, ◌++◌, map, some, Bytes, codes, decimal, decimal-IsDigit,
  Lacks-IsDigit, All, All-append, Lacks, arith,
}
use smoll.Http.Request.{
  ok, Header, Field, ConnectionHeader, crlf, request_line, field_line, field_lines, connection_text,
  body_text, create_http_request,
}
use smoll.Http.Request.Head.{put_line, read_head, read_head-line, cut, cut-append}
use smoll.Http.Request.Reader.{read_message, OneLine, IsCleanField, with_head}
use smoll.Http.Request.Lines.{
  append-ne-nil, put_lines, put_lines-some, read_head-field_lines, read_fields-append,
  read_head-tail, read_fields-tail, connection_text-OneLine, connection_field, length_fields,
  sent_body, version_text,
}

module _ {M : Type 0} (method_to_string : M → Bytes) where
  -- No space, and no CR, in the method and in the target.
  pub record IsCleanHeader (h : Header M) : Type 0 where
    pub method_line : OneLine (method_to_string h.method)
    pub method_space : Lacks b' ' (method_to_string h.method)
    pub target_line : OneLine h.target
    pub target_space : Lacks b' ' h.target

  request_line-OneLine :
      (h : Header M) → IsCleanHeader h → OneLine (request_line method_to_string h)
  unfolding request_line
  request_line-OneLine h clean =
      join m (codes " " ++ (h.target ++ (codes " " ++ (codes "HTTP/" ++ version))))
        clean.method_line
        (
          space,
          join h.target (codes " " ++ (codes "HTTP/" ++ version)) clean.target_line (
            space,
            join (codes "HTTP/") version (omega arith) (
                join (decimal h.major) (codes "." ++ decimal h.minor) (number h.major)
                  (space', number h.minor)),
          ),
        )
    where
      m : Bytes
      m = method_to_string h.method

      version : Bytes
      version = decimal h.major ++ (codes "." ++ decimal h.minor)

      join : (xs ys : Bytes) → OneLine xs → OneLine ys → OneLine (xs ++ ys)
      join = All-append (λ c. c ≢ 13)

      number : (n : ℕ) → OneLine (decimal n)
      number n = Lacks-IsDigit 13 (decimal n) (omega arith) (decimal-IsDigit n)

      space : ◌≢◌ {A = ℕ} b' ' 13
      space = omega arith

      space' : ◌≢◌ {A = ℕ} b'.' 13
      space' = omega arith

  request_line-ne-nil : (h : Header M) → request_line method_to_string h ≢ []
  unfolding request_line
  request_line-ne-nil h = append-ne-nil (method_to_string h.method) _ (cc)

  cut-method :
      (h : Header M)
      → IsCleanHeader h
      → cut b' ' (request_line method_to_string h)
        ≡ some (method_to_string h.method, h.target ++ b' ' ∷ version_text h)
  unfolding request_line version_text
  cut-method h clean = cut-append b' ' (method_to_string h.method) _ clean.method_space

  -- For every connection header but `upgrade`, where the method and the target have no space and no
  -- CR, the field names no colon and no CR, and the field values no CR: the function returns a text,
  -- and a reader finds in it the method, the target, the version, the fields in order, then the
  -- connection field, then for a body that is not empty its length as Content-Length. Behind the
  -- head stands nothing for an empty body, and else the body followed by a further CRLF, two bytes
  -- more than the Content-Length says.
  pub read_message-create :
      (h : Header M) (fs : List Field) (connection : ConnectionHeader) (body conn_str : Bytes)
      → IsCleanHeader h
      → All IsCleanField fs
      → connection_text connection ≡ ok conn_str
      → (text : Bytes) × (create_http_request method_to_string h fs connection body ≡ ok text)
        × (read_message text
            ≡ some (record {
              method = method_to_string h.method;
              target = h.target;
              version = version_text h;
              fields = fs ++ connection_field conn_str ∷ length_fields body;
              rest = sent_body body;
            }))
  unfolding create_http_request
  read_message-create h fs connection body conn_str clean clean_fields e = (
    request_line method_to_string h ++ (crlf ++ (field_lines fs ++ tail)),
    rw (e, create_http_request),
    unfold read_message in ap with_head head ∙ parts,
  )
    where
      gs : List Field
      gs = connection_field conn_str ∷ length_fields body

      tail : Bytes
      tail = codes "Connection: " ++ (conn_str ++ (crlf ++ body_text body))

      head :
          read_head (request_line method_to_string h ++ (crlf ++ (field_lines fs ++ tail)))
          ≡ some (
            request_line method_to_string h ∷ (map field_line fs ++ map field_line gs),
            sent_body body,
          )
      head =
          read_head-line (request_line method_to_string h) (field_lines fs ++ tail)
            (request_line-ne-nil h) (request_line-OneLine h clean)
          ∙ ap (put_line (request_line method_to_string h)) (
              read_head-field_lines fs tail clean_fields
              ∙ ap (put_lines (map field_line fs))
                  (read_head-tail conn_str body (connection_text-OneLine connection conn_str e))
              ∙ put_lines-some (map field_line fs) (map field_line gs) (sent_body body))

      parts :
          with_head (
            some (
              request_line method_to_string h ∷ (map field_line fs ++ map field_line gs),
              sent_body body,
            ))
          ≡ some (record {
            method = method_to_string h.method;
            target = h.target;
            version = version_text h;
            fields = fs ++ gs;
            rest = sent_body body;
          })
      parts = rw (
        cut-method h clean,
        cut-append b' ' h.target (version_text h) clean.target_space,
        read_fields-append fs (map field_line gs) gs clean_fields (read_fields-tail conn_str body),
      )
