-- ===== src/Crypto/Ocsp.antt =====
-- cpp/crypto/gnutls/ocsp.cpp: `load_cert`, `generate_request`, `ocsp_response`, the search for the
-- responder's address, and `main`. GnuTLS is a parameter: certificates `C`, requests `Q`, responses
-- `R`; `none` is a negative return value. The file system and the HTTP client are arguments.
pub mod Verified
pub mod Responder
pub mod Finished
pub mod Files
use smoll.Base.{
  ℕ, zero, suc, ◌+◌, ◌≡◌, List, [], ◌∷◌, Bool, true, false, not, ◌&&◌, ◌||◌, Option, none, some,
  Bytes, ltb, leb, ◌==◌, if◌then◌else◌, length, same_text,
}

-- The reasons for `exit(1)`.
pub data Stop : Type 0 where
  cannot_import : Stop
  req_init req_add_cert req_set_nonce req_export : Stop
  empty_response resp_init resp_import resp_print resp_check_crt : Stop
  no_nonce wrong_nonce resp_verify : Stop
  no_uri uri_error : Stop

-- A function returns, or the program ends.
pub data Flow (A : Type 0) : Type 0 where
  returns : A → Flow A
  exits : Stop → Flow A

infixl 5 ◌>>=◌
abbrev pub ◌>>=◌ : {A B : Type 0} → Flow A → (A → Flow B) → Flow B
returns a >>= f = f a
exits why >>= f = exits why

-- `if (ret < 0) { ...; exit(1); }`
abbrev pub check : {A : Type 0} → Stop → Option A → Flow A
check why none = exits why
check why (some a) = returns a

abbrev pub require : Bool → Stop → Flow (Unit {0})
require true why = returns tt
require false why = exits why

-- `GNUTLS_E_UNKNOWN_ALGORITHM`, `GNUTLS_E_REQUESTED_DATA_NOT_AVAILABLE`, other errors, or an address.
pub data Access : Type 0 where
  unknown_algorithm not_available other_error : Access
  address : Bytes → Access

pub record Gnutls (C Q R : Type 0) : Type 0 where
  pub import_list : Bytes → Option C
  pub authority_access : C → ℕ → Access
  pub req_init : Option Q
  pub req_add_cert : Q → C → C → Option Q
  pub req_set_nonce : Q → Bytes → Option Q
  pub req_export : Q → Option Bytes
  pub resp_init : Option (Unit {0})
  pub resp_import : Bytes → Option R
  pub resp_print : R → Option Bytes
  pub resp_check_crt : R → C → Option (Unit {0})
  pub resp_get_nonce : R → Option Bytes
  pub resp_verify_direct : R → C → Option ℕ

-- The text of a file that cannot be read is empty; `c_str()` is never null.
abbrev pub contents_of : Option Bytes → Bytes
contents_of none = []
contents_of (some contents) = contents

module _ {C Q R : Type 0} (tls : Gnutls C Q R) where
  -- `load_cert`, for one certificate.
  unfoldable pub load_cert : Option Bytes → Flow C
  load_cert file = check cannot_import (tls.import_list (contents_of file))

  unfoldable pub generate_request : C → C → Option Bytes → Flow Bytes
  generate_request cert issuer nonce = do
    req ← check req_init tls.req_init
    with_cert ← check req_add_cert (tls.req_add_cert req issuer cert)
    ready ← elim nonce [
      | none ↦ returns with_cert
      | some n ↦ check req_set_nonce (tls.req_set_nonce with_cert n)
    ]
    check req_export (tls.req_export ready)

  -- The result is the verification status.
  unfoldable pub ocsp_response : Bytes → C → C → Bytes → Flow ℕ
  ocsp_response response_bytes cert signer nonce = do
    nonempty ← require (not (length response_bytes == 0)) empty_response
    init ← check resp_init tls.resp_init
    resp ← check resp_import (tls.resp_import response_bytes)
    text ← check resp_print (tls.resp_print resp)
    matches ← check resp_check_crt (tls.resp_check_crt resp cert)
    received ← check no_nonce (tls.resp_get_nonce resp)
    same ←
        require (not (not (length received == length nonce) || not (same_text nonce received)))
          wrong_nonce
    check resp_verify (tls.resp_verify_direct resp signer)

  -- The loop over `seq`; `none` is fuel that ran out.
  unfoldable pub find_responder : ℕ → C → ℕ → Option (Flow Bytes)
  find_responder zero cert seq = none
  find_responder (suc fuel) cert seq = elim (tls.authority_access cert seq) [
    | unknown_algorithm ↦ find_responder fuel cert (seq + 1)
    | not_available ↦ some (exits no_uri)
    | other_error ↦ some (exits uri_error)
    | address uri ↦ some (returns uri)
  ]

-- How `main` ends: the usage message, `return -1` without random bytes, an `exit(1)`, the exception of
-- `stoul`, or the status printed.
pub data Ending : Type 0 where
  usage no_random thrown : Ending
  stopped : Stop → Ending
  finished : ℕ → Ending

-- What is left to do with a value, unless the program ended.
abbrev pub ended : {A : Type 0} → Flow A → (A → Ending) → Ending
ended (returns a) f = f a
ended (exits why) f = stopped why

abbrev pub searched : Option (Flow Bytes) → (Bytes → Ending) → Option Ending
searched none f = none
searched (some found) f = some (ended found f)

-- The HTTP exchange: the body, and what `stoul` makes of its Content-Length. `files` reads a file and
-- `random` is the outcome of `gnutls_rnd`.
pub record World : Type 0 where
  pub files : Bytes → Option Bytes
  pub random : Option Bytes
  pub post : Bytes → Bytes → Bytes × Option ℕ

module _ {C Q R : Type 0} (tls : Gnutls C Q R) (world : World) where
  unfoldable pub read_response : Bytes → C → C → Bytes → Bytes × Option ℕ → Ending
  read_response uri cert signer nonce (body, none) = thrown
  read_response uri cert signer nonce (body, some content_length) =
      ended (ocsp_response tls body cert signer nonce) finished

  -- From the random bytes on.
  unfoldable pub query : Bytes → C → C → C → Option Bytes → Ending
  unfolding read_response
  query uri cert issuer signer none = no_random
  query uri cert issuer signer (some nonce) =
      ended (generate_request tls cert issuer (some nonce))
        (λ req. read_response uri cert signer nonce (world.post uri req))

  unfoldable pub load_certs : Bytes → Bytes → Bytes → Flow (C × C × C)
  load_certs cert_file issuer_file signer_file = do
    cert ← load_cert tls (world.files cert_file)
    issuer ← load_cert tls (world.files issuer_file)
    signer ← load_cert tls (world.files signer_file)
    returns (cert, issuer, signer)

  -- From the certificates on.
  unfoldable pub search : ℕ → Flow (C × C × C) → Option Ending
  unfolding query
  search fuel (exits why) = some (stopped why)
  search fuel (returns (cert, issuer, signer)) =
      searched (find_responder tls fuel cert 0) (λ uri. query uri cert issuer signer world.random)

  -- `none` is a search for the address that ran out of fuel.
  unfoldable pub main : ℕ → List Bytes → Option Ending
  unfolding load_certs search
  main fuel (cert_file ∷ issuer_file ∷ signer_file ∷ rest) =
      search fuel (load_certs cert_file issuer_file signer_file)
  main fuel args = some usage
