-- ===== src/Http/Methods.antt =====
-- cpp/restinio/client_custom_http_methods.cpp: the custom methods and `from_nodejs`. The raw ids are
-- constants of http_parser, and the default table is restinio's: parameters.
pub mod Streamed
pub mod Listen
use smoll.Base.{
  ℕ, ◌≡◌, ◌≢◌, codes, ◌==◌, if◌then◌else◌, arith, List, ◌∷◌, ◌++◌, some, same_text, All, Lacks,
  decimal, length, [], append_assoc, append-nil, sym, ◌∙◌, Bytes,
}
use smoll.Http.Request.{
  Outcome, ok, invalid_argument, ◌>>=◌, Header, Field, ConnectionHeader, connection_text,
  create_http_request, crlf, field_line, field_lines, body_text, request_line,
}
use smoll.Http.Request.Reader.{read_message, IsCleanField, OneLine}
use smoll.Http.Request.Lines.{version_text, connection_field, length_fields, sent_body}
use smoll.Http.Request.RoundTrip.{read_message-create}

-- `restinio::http_method_id_t`.
pub record MethodId : Type 0 where
  pub raw_id : ℕ
  pub name : Bytes

-- HTTP_LISTEN, HTTP_STATS, HTTP_SIGN and HTTP_ENCRYPT, and `default_http_methods_t::from_nodejs`.
pub record Numbers : Type 0 where
  pub listen : ℕ
  pub stats : ℕ
  pub sign : ℕ
  pub encrypt : ℕ
  pub default_from_nodejs : ℕ → MethodId

module _ (ids : Numbers) where
  abbrev pub method_listen : MethodId
  method_listen = record { raw_id = ids.listen; name = codes "LISTEN" }

  abbrev pub method_stats : MethodId
  method_stats = record { raw_id = ids.stats; name = codes "STATS" }

  abbrev pub method_sign : MethodId
  method_sign = record { raw_id = ids.sign; name = codes "SIGN" }

  abbrev pub method_encrypt : MethodId
  method_encrypt = record { raw_id = ids.encrypt; name = codes "ENCRYPT" }

  -- `custom_http_methods_t::from_nodejs`.
  unfoldable pub from_nodejs : ℕ → MethodId
  from_nodejs m =
      if m == method_listen.raw_id
      then method_listen
      else if m == method_stats.raw_id
      then method_stats
      else if m == method_sign.raw_id
      then method_sign
      else if m == method_encrypt.raw_id
      then method_encrypt
      else ids.default_from_nodejs m

  -- The four numbers are different.
  pub record AreDistinct : Type 0 where
    pub listen_stats : ids.listen ≢ ids.stats
    pub listen_sign : ids.listen ≢ ids.sign
    pub listen_encrypt : ids.listen ≢ ids.encrypt
    pub stats_sign : ids.stats ≢ ids.sign
    pub stats_encrypt : ids.stats ≢ ids.encrypt
    pub sign_encrypt : ids.sign ≢ ids.encrypt

  -- Where the four raw ids are different and restinio's table keeps the number that it is asked for,
  -- each custom method is found under its own id, and whatever method is found has the id that was
  -- asked for.
  pub from_nodejs-raw_id :
      (m : ℕ)
      → AreDistinct
      → ((k : ℕ) → (ids.default_from_nodejs k).raw_id ≡ k)
      → ((from_nodejs m).raw_id ≡ m)
        × (from_nodejs ids.listen ≡ method_listen)
        × (from_nodejs ids.stats ≡ method_stats)
        × (from_nodejs ids.sign ≡ method_sign)
        × (from_nodejs ids.encrypt ≡ method_encrypt)
  unfolding from_nodejs
  from_nodejs-raw_id m d keeps = (
    ground (arith, keeps m),
    ground arith,
    ground (arith, d.listen_stats),
    ground (arith, d.listen_sign, d.stats_sign),
    ground (arith, d.listen_encrypt, d.stats_encrypt, d.sign_encrypt),
  )

-- restinio's `http_method_get()` and `http_method_post()`.
pub record StandardMethods : Type 0 where
  pub http_method_get : MethodId
  pub http_method_post : MethodId

-- The choice of the method in `main`.
unfoldable pub custom_method_of : Numbers → StandardMethods → Bytes → Outcome MethodId
custom_method_of ids std method_str =
    if same_text method_str (codes "get")
    then ok std.http_method_get
    else if same_text method_str (codes "post")
    then ok std.http_method_post
    else if same_text method_str (codes "listen")
    then ok (from_nodejs ids (method_listen ids).raw_id)
    else invalid_argument method_str
