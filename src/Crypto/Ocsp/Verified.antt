-- ===== src/Crypto/Ocsp/Verified.antt =====
-- What a verified response has gone through, in `ocsp_response` and `main` of ocsp.cpp.
use smoll.Base.{
  ℕ, ◌≡◌, ◌≢◌, refl, ap, ◌∙◌, List, [], ◌∷◌, Bool, true, false, not, ◌||◌, Option, none, some,
  Bytes, arith, ◌==◌, length, same_text, same_text_iff,
}
use smoll.Crypto.Ocsp.{
  Stop, Flow, returns, exits, ◌>>=◌, check, require, Gnutls, ocsp_response, generate_request,
  find_responder, Ending, finished, ended, searched, World, read_response, query, main, load_certs,
  search,
}

module _ {C Q R : Type 0} where
  -- A response that is about the certificate, carries the nonce that was sent, and has a status.
  pub record Accepted (tls : Gnutls C Q R) (response_bytes : Bytes) (cert signer : C)
      (nonce : Bytes) (status : ℕ) : Type 0 where
    pub resp : R
    pub not_empty : response_bytes ≢ []
    pub initialised : tls.resp_init ≡ some tt
    pub imported : tls.resp_import response_bytes ≡ some resp
    pub printed : (text : Bytes) × (tls.resp_print resp ≡ some text)
    pub about_cert : tls.resp_check_crt resp cert ≡ some tt
    pub same_nonce : tls.resp_get_nonce resp ≡ some nonce
    pub verified : tls.resp_verify_direct resp signer ≡ some status

-- A request about the certificate and its issuer, which carries the nonce.
pub record IsRequest {C Q R : Type 0} (tls : Gnutls C Q R) (cert issuer : C) (nonce req : Bytes)
    : Type 0 where
  pub blank : Q
  pub with_cert : Q
  pub ready : Q
  pub initialised : tls.req_init ≡ some blank
  pub about_cert : tls.req_add_cert blank issuer cert ≡ some with_cert
  pub carries_nonce : tls.req_set_nonce with_cert nonce ≡ some ready
  pub exported : tls.req_export ready ≡ some req

bind_returns :
    {A B : Type 0} (m : Flow A) (f : A → Flow B) (b : B)
    → (m >>= f) ≡ returns b
    → (a : A) × (m ≡ returns a) × (f a ≡ returns b)
bind_returns (returns a) f b h = (a, refl, h)
bind_returns (exits why) f b h = absurd (cc)

check_returns :
    {A : Type 0} (why : Stop) (o : Option A) (a : A) → check why o ≡ returns a → o ≡ some a
check_returns why none a h = absurd (cc)
check_returns why (some x) a h = cc

require_returns : (b : Bool) (why : Stop) (u : Unit {0}) → require b why ≡ returns u → b ≡ true
require_returns true why u h = refl
require_returns false why u h = absurd (cc)

nonempty : (s : Bytes) → not (length s == 0) ≡ true → s ≢ []
nonempty s h = ground arith

same_bytes :
    (nonce received : Bytes)
    → not (not (length received == length nonce) || not (same_text nonce received)) ≡ true
    → received ≡ nonce
same_bytes nonce received h = ground (arith, same_text_iff nonce received)

-- Where `ocsp_response` returns, the response is accepted for the certificate, the signer and the
-- nonce that was sent, with the status returned: no response with another nonce gets through.
pub ocsp_response-Accepted :
    {C Q R : Type 0} (tls : Gnutls C Q R) (response_bytes : Bytes) (cert signer : C) (nonce : Bytes)
    (status : ℕ)
    → ocsp_response tls response_bytes cert signer nonce ≡ returns status
    → Accepted tls response_bytes cert signer nonce status
unfolding ocsp_response
ocsp_response-Accepted tls response_bytes cert signer nonce status h =
    let (u, filled, h1) = bind_returns _ _ _ h in
    let (i, init, h2) = bind_returns _ _ _ h1 in
    let (resp, import, h3) = bind_returns _ _ _ h2 in
    let (text, print, h4) = bind_returns _ _ _ h3 in
    let (m, matches, h5) = bind_returns _ _ _ h4 in
    let (received, got, h6) = bind_returns _ _ _ h5 in
    let (s, same, h7) = bind_returns _ _ _ h6 in
    record {
      resp = resp;
      not_empty = nonempty response_bytes (require_returns _ _ _ filled);
      initialised = check_returns _ _ _ init;
      imported = check_returns _ _ _ import;
      printed = (text, check_returns _ _ _ print);
      about_cert = check_returns _ _ _ matches;
      same_nonce =
          check_returns _ _ _ got
          ∙ ap some (same_bytes nonce received (require_returns _ _ _ same));
      verified = check_returns _ _ _ h7;
    }

pub generate_request-IsRequest :
    {C Q R : Type 0} (tls : Gnutls C Q R) (cert issuer : C) (nonce req : Bytes)
    → generate_request tls cert issuer (some nonce) ≡ returns req
    → IsRequest tls cert issuer nonce req
unfolding generate_request
generate_request-IsRequest tls cert issuer nonce req h =
    let (blank, init, h1) = bind_returns _ _ _ h in
    let (with_cert, added, h2) = bind_returns _ _ _ h1 in
    let (ready, set_nonce, h3) = bind_returns _ _ _ h2 in
    record {
      blank = blank;
      with_cert = with_cert;
      ready = ready;
      initialised = check_returns _ _ _ init;
      about_cert = check_returns _ _ _ added;
      carries_nonce = check_returns _ _ _ set_nonce;
      exported = check_returns _ _ _ h3;
    }

filled_in : (s : Bytes) → s ≢ [] → not (length s == 0) ≡ true
filled_in [] h = absurd (h refl)
filled_in (c ∷ s) h = ground arith

same_in : (s : Bytes) → not (not (length s == length s) || not (same_text s s)) ≡ true
same_in s = ground (arith, same_text_iff s s)

-- Every accepted response makes `ocsp_response` return, with its status.
pub Accepted-returns :
    {C Q R : Type 0} (tls : Gnutls C Q R) (response_bytes : Bytes) (cert signer : C) (nonce : Bytes)
    (status : ℕ)
    → Accepted tls response_bytes cert signer nonce status
    → ocsp_response tls response_bytes cert signer nonce ≡ returns status
unfolding ocsp_response
Accepted-returns tls response_bytes cert signer nonce status a =
    rw
      (
        filled_in response_bytes a.not_empty,
        a.initialised,
        a.imported,
        a.printed.1,
        a.about_cert,
        a.same_nonce,
        same_in nonce,
        a.verified,
      )
      refl

pub ended_finished :
    {A : Type 0} (m : Flow A) (f : A → Ending) (status : ℕ)
    → ended m f ≡ finished status
    → (a : A) × (m ≡ returns a) × (f a ≡ finished status)
ended_finished (returns a) f status h = (a, refl, h)
ended_finished (exits why) f status h = absurd (cc)

pub searched-finished :
    (m : Option (Flow Bytes)) (f : Bytes → Ending) (status : ℕ)
    → searched m f ≡ some (finished status)
    → (uri : Bytes) × (m ≡ some (returns uri)) × (f uri ≡ finished status)
searched-finished none f status h = absurd (cc)
searched-finished (some found) f status h =
    let (uri, e, g) = ended_finished found f status (cc) in (uri, ap some e, g)

module _ {C Q R : Type 0} (tls : Gnutls C Q R) (world : World) where
  -- The request that was sent to the address of the certificate, and the accepted response to it.
  pub record Queried (cert issuer signer : C) (status : ℕ) : Type 0 where
    pub fuel : ℕ
    pub uri : Bytes
    pub nonce : Bytes
    pub req : Bytes
    pub found : find_responder tls fuel cert 0 ≡ some (returns uri)
    pub random : world.random ≡ some nonce
    pub requested : IsRequest tls cert issuer nonce req
    pub accepted : Accepted tls ((world.post uri req).0) cert signer nonce status

  pub response-Accepted :
      (uri nonce : Bytes) (cert signer : C) (status : ℕ) (answer : Bytes × Option ℕ)
      → read_response tls world uri cert signer nonce answer ≡ finished status
      → Accepted tls (answer.0) cert signer nonce status
  unfolding read_response
  response-Accepted uri nonce cert signer status (body, none) h = absurd (cc)
  response-Accepted uri nonce cert signer status (body, some l) h =
      let (v, e, g) = ended_finished _ _ status h in
      let same : v ≡ status = cc in
      ocsp_response-Accepted tls body cert signer nonce status (e ∙ ap returns same)

  query-Queried :
      (fuel : ℕ) (uri : Bytes) (cert issuer signer : C) (status : ℕ) (random : Option Bytes)
      → world.random ≡ random
      → find_responder tls fuel cert 0 ≡ some (returns uri)
      → query tls world uri cert issuer signer random ≡ finished status
      → Queried cert issuer signer status
  unfolding query
  query-Queried fuel uri cert issuer signer status none e found h = absurd (cc)
  query-Queried fuel uri cert issuer signer status (some nonce) e found h =
      let (req, sent, read) = ended_finished _ _ status h in
      record {
        fuel = fuel;
        uri = uri;
        nonce = nonce;
        req = req;
        found = found;
        random = e;
        requested = generate_request-IsRequest tls cert issuer nonce req sent;
        accepted = response-Accepted uri nonce cert signer status (world.post uri req) read;
      }

  -- What stands behind the last lines of the program: three certificates, and a query about the first.
  pub record Checked (cert_file issuer_file signer_file : Bytes) (status : ℕ) : Type 0 where
    pub cert : C
    pub issuer : C
    pub signer : C
    pub loaded :
        load_certs tls world cert_file issuer_file signer_file ≡ returns (cert, issuer, signer)
    pub queried : Queried cert issuer signer status

  search-Checked :
      (fuel : ℕ) (loaded : Flow (C × C × C)) (status : ℕ)
      → search tls world fuel loaded ≡ some (finished status)
      → (cert issuer signer : C) × (loaded ≡ returns (cert, issuer, signer))
        × Queried cert issuer signer status
  unfolding search
  search-Checked fuel (exits why) status h = absurd (cc)
  search-Checked fuel (returns (cert, issuer, signer)) status h =
      let (uri, found, rest) = searched-finished _ _ status h in
      (
        cert,
        issuer,
        signer,
        refl,
        query-Queried fuel uri cert issuer signer status world.random refl found rest,
      )

  -- Where the program comes to its end and prints a status, the three certificates were loaded, the
  -- request was made of the first with the second as its issuer and fresh random bytes set as its nonce,
  -- and sent to the address in the first certificate, and the body of the answer is accepted for that certificate, the signer, and the
  -- same nonce, with this status.
  pub main-Checked :
      (fuel : ℕ) (cert_file issuer_file signer_file : Bytes) (rest : List Bytes) (status : ℕ)
      → main tls world fuel (cert_file ∷ issuer_file ∷ signer_file ∷ rest) ≡ some (finished status)
      → Checked cert_file issuer_file signer_file status
  unfolding main
  main-Checked fuel cert_file issuer_file signer_file rest status h =
      let (cert, issuer, signer, loaded, queried) = search-Checked fuel _ status h in
      record { cert = cert; issuer = issuer; signer = signer; loaded = loaded; queried = queried }
