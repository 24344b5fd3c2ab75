-- ===== src/Http/Request/Reader.antt =====
-- A reader of HTTP messages, independent of `create_http_request`.
use smoll.Base.{List, [], ◌∷◌, Option, none, some, Bytes, Lacks}
use smoll.Http.Request.{Field}
use smoll.Http.Request.Head.{read_head, cut, read_field}

-- A message as a reader sees it.
pub record Message : Type 0 where
  pub method : Bytes
  pub target : Bytes
  pub version : Bytes
  pub fields : List Field
  pub rest : Bytes

abbrev pub put_field : Option Field → Option (List Field) → Option (List Field)
put_field none fs = none
put_field (some f) none = none
put_field (some f) (some fs) = some (f ∷ fs)

unfoldable pub read_fields : List Bytes → Option (List Field)
read_fields [] = some []
read_fields (line ∷ lines) = put_field (read_field line) (read_fields lines)

abbrev pub message_of :
    Bytes → Option (Bytes × Bytes) → Option (List Field) → Bytes → Option Message
message_of method none fs rest = none
message_of method (some (target, version)) none rest = none
message_of method (some (target, version)) (some fs) rest =
    some (record { method = method; target = target; version = version; fields = fs; rest = rest })

abbrev pub with_method : Option (Bytes × Bytes) → Option (List Field) → Bytes → Option Message
with_method none fs rest = none
with_method (some (method, line)) fs rest = message_of method (cut b' ' line) fs rest

abbrev pub with_head : Option (List Bytes × Bytes) → Option Message
with_head none = none
with_head (some ([], rest)) = none
with_head (some (line ∷ lines, rest)) = with_method (cut b' ' line) (read_fields lines) rest

-- The request line is cut at its first two spaces.
unfoldable pub read_message : Bytes → Option Message
read_message s = with_head (read_head s)

-- A text on one line.
abbrev pub OneLine : Bytes → Type 0
OneLine = Lacks 13

-- No colon in the name, and no CR.
pub record IsCleanField (f : Field) : Type 0 where
  pub name_line : OneLine f.name
  pub name_colon : Lacks b':' f.name
  pub value_line : OneLine f.value
