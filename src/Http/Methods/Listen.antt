-- ===== src/Http/Methods/Listen.antt =====
-- The request that the argument "listen" leads to.
use smoll.Base.{ℕ, ◌≡◌, codes, arith, List, ◌∷◌, ◌++◌, some, same_text, All, Lacks, Bytes}
use smoll.Http.Request.{ok, ◌>>=◌, Header, Field, ConnectionHeader, connection_text}
use smoll.Http.Request.Reader.{read_message, IsCleanField, OneLine}
use smoll.Http.Request.Lines.{version_text, connection_field, length_fields, sent_body}
use smoll.Http.Request.RoundTrip.{read_message-create}
use smoll.Http.Methods.{
  MethodId, method_listen, Numbers, from_nodejs, StandardMethods, custom_method_of,
}
use smoll.Http.Methods.Streamed.{create_custom_request, create_custom_request-same}

abbrev pub listen_header : Numbers → Bytes → ℕ → ℕ → Header MethodId
listen_header ids target major minor = record {
  method = method_listen ids;
  target = target;
  major = major;
  minor = minor;
}

from_nodejs-listen : (ids : Numbers) → from_nodejs ids ids.listen ≡ method_listen ids
unfolding from_nodejs
from_nodejs-listen ids = ground arith

-- Whatever the numbers of the methods are, the argument "listen" makes a request that its reader
-- finds to be of method LISTEN, for the target, the fields, the connection and the body that the
-- request was made from, where the target has no space and no CR and the fields are clean.
pub listen_message :
    (ids : Numbers) (std : StandardMethods) (target : Bytes) (major minor : ℕ) (fs : List Field)
    (connection : ConnectionHeader) (body conn_str : Bytes)
    → OneLine target
    → Lacks b' ' target
    → All IsCleanField fs
    → connection_text connection ≡ ok conn_str
    → (text : Bytes) × ((custom_method_of ids std (codes "listen") >>= λ m.
          create_custom_request
            (record { method = m; target = target; major = major; minor = minor })
            fs
            connection
            body)
        ≡ ok text)
      × (read_message text
          ≡ some (record {
            method = codes "LISTEN";
            target = target;
            version = version_text (listen_header ids target major minor);
            fields = fs ++ connection_field conn_str ∷ length_fields body;
            rest = sent_body body;
          }))
unfolding custom_method_of same_text
listen_message ids std target major minor fs connection body conn_str t s clean e =
    let (text, made, read) =
      read_message-create (λ (m : MethodId). m.name) (listen_header ids target major minor) fs
        connection body conn_str
        (record {
          method_line = omega arith;
          method_space = omega arith;
          target_line = t;
          target_space = s;
        })
        clean e in
    (text, rw (from_nodejs-listen ids, create_custom_request-same) made, read)
