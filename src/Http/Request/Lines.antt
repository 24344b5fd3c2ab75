-- ===== src/Http/Request/Lines.antt =====
-- What the reader makes of the lines that `create_http_request` writes.
use smoll.Base.{
  ◌≡◌, ◌≢◌, refl, subst, ap, ◌∙◌, List, [], ◌∷◌, ◌++◌, map, Option, some, Bytes, codes, decimal,
  decimal-IsDigit, Lacks-IsDigit, All, All-append, arith, append_assoc, length,
}
use smoll.Http.Request.{
  ok, Header, Field, ConnectionHeader, keep_alive, close, upgrade, crlf, field_line, field_lines,
  connection_text, body_text,
}
use smoll.Http.Request.Head.{
  put_line, read_head, read_head-line, read_head-end, read_field-field_line,
}
use smoll.Http.Request.Reader.{read_fields, OneLine, IsCleanField}

pub append-ne-nil : (xs ys : Bytes) → ys ≢ [] → xs ++ ys ≢ []
append-ne-nil [] ys h = h
append-ne-nil (x ∷ xs) ys h = cc

field_line-ne-nil : (f : Field) → field_line f ≢ []
unfolding field_line
field_line-ne-nil f = append-ne-nil f.name (codes ": " ++ f.value) (cc)

field_line-OneLine : (f : Field) → IsCleanField f → OneLine (field_line f)
unfolding field_line
field_line-OneLine f h =
    All-append (λ c. c ≢ 13) f.name (codes ": " ++ f.value) h.name_line
      (omega arith, (omega arith, h.value_line))

abbrev pub put_lines : List Bytes → Option (List Bytes × Bytes) → Option (List Bytes × Bytes)
put_lines [] r = r
put_lines (line ∷ lines) r = put_line line (put_lines lines r)

pub put_lines-some :
    (xs ys : List Bytes) (s : Bytes) → put_lines xs (some (ys, s)) ≡ some (xs ++ ys, s)
put_lines-some [] ys s = refl
put_lines-some (x ∷ xs) ys s = ap (put_line x) (put_lines-some xs ys s)

-- The lines of the fields are read one by one.
pub read_head-field_lines :
    (fs : List Field) (s : Bytes)
    → All IsCleanField fs
    → read_head (field_lines fs ++ s) ≡ put_lines (map field_line fs) (read_head s)
unfolding field_lines
read_head-field_lines [] s h = refl
read_head-field_lines (f ∷ fs) s h =
    ap read_head (regroup (field_line f) (field_lines fs) s)
    ∙ read_head-line (field_line f) (field_lines fs ++ s) (field_line-ne-nil f)
        (field_line-OneLine f h.0)
    ∙ ap (put_line (field_line f)) (read_head-field_lines fs s h.1)
  where
    regroup : (a b c : Bytes) → (a ++ (crlf ++ b)) ++ c ≡ a ++ (crlf ++ (b ++ c))
    regroup a b c = append_assoc a (crlf ++ b) c

pub read_fields-append :
    (fs : List Field) (lines : List Bytes) (gs : List Field)
    → All IsCleanField fs
    → read_fields lines ≡ some gs
    → read_fields (map field_line fs ++ lines) ≡ some (fs ++ gs)
unfolding read_fields
read_fields-append [] lines gs h e = e
read_fields-append (f ∷ fs) lines gs h e =
    rw (read_field-field_line f h.0.name_colon, read_fields-append fs lines gs h.1 e)

-- The fields that the function itself adds.
unfoldable pub connection_field : Bytes → Field
connection_field conn_str = record { name = codes "Connection"; value = conn_str }

unfoldable pub length_fields : Bytes → List Field
length_fields [] = []
length_fields (b ∷ bs) =
    record { name = codes "Content-Length"; value = decimal (length (b ∷ bs)) } ∷ []

-- What stands behind the head.
unfoldable pub sent_body : Bytes → Bytes
sent_body [] = []
sent_body (b ∷ bs) = (b ∷ bs) ++ crlf

read_head-body_text :
    (body : Bytes)
    → read_head (body_text body) ≡ some (map field_line (length_fields body), sent_body body)
unfolding body_text field_line length_fields sent_body
read_head-body_text [] = read_head-end []
read_head-body_text (b ∷ bs) =
    read_head-line (codes "Content-Length: " ++ n) (crlf ++ ((b ∷ bs) ++ crlf)) (cc) one_line
    ∙ ap (put_line (codes "Content-Length: " ++ n)) (read_head-end ((b ∷ bs) ++ crlf))
  where
    n : Bytes
    n = decimal (length (b ∷ bs))

    one_line : OneLine (codes "Content-Length: " ++ n)
    one_line =
        All-append (λ c. c ≢ 13) (codes "Content-Length: ") n (omega arith)
          (Lacks-IsDigit 13 n (omega arith) (decimal-IsDigit (length (b ∷ bs))))

read_fields-length_fields :
    (body : Bytes) → read_fields (map field_line (length_fields body)) ≡ some (length_fields body)
unfolding read_fields length_fields
read_fields-length_fields [] = refl
read_fields-length_fields (b ∷ bs) = rw (
    read_field-field_line
      (record { name = codes "Content-Length"; value = decimal (length (b ∷ bs)) }) (omega arith))

pub read_head-tail :
    (conn_str body : Bytes)
    → OneLine conn_str
    → read_head (codes "Connection: " ++ (conn_str ++ (crlf ++ body_text body)))
      ≡ some (map field_line (connection_field conn_str ∷ length_fields body), sent_body body)
unfolding field_line connection_field
read_head-tail conn_str body h =
    read_head-line (codes "Connection: " ++ conn_str) (body_text body) (cc)
      (All-append (λ c. c ≢ 13) (codes "Connection: ") conn_str (omega arith) h)
    ∙ ap (put_line (codes "Connection: " ++ conn_str)) (read_head-body_text body)

pub read_fields-tail :
    (conn_str body : Bytes)
    → read_fields (map field_line (connection_field conn_str ∷ length_fields body))
      ≡ some (connection_field conn_str ∷ length_fields body)
unfolding read_fields connection_field
read_fields-tail conn_str body = rw (
  read_field-field_line (record { name = codes "Connection"; value = conn_str }) (omega arith),
  read_fields-length_fields body,
)

pub connection_text-OneLine :
    (connection : ConnectionHeader) (conn_str : Bytes)
    → connection_text connection ≡ ok conn_str
    → OneLine conn_str
unfolding connection_text
connection_text-OneLine keep_alive conn_str e =
    let same : codes "keep-alive" ≡ conn_str = cc in subst OneLine same (omega arith)
connection_text-OneLine close conn_str e =
    let same : codes "close" ≡ conn_str = cc in subst OneLine same (omega arith)
connection_text-OneLine upgrade conn_str e = cc

unfoldable pub version_text : {M : Type 0} → Header M → Bytes
version_text h = codes "HTTP/" ++ (decimal h.major ++ (codes "." ++ decimal h.minor))
