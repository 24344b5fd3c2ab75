-- ===== src/Crypto/Ocsp/Files.antt =====
-- The two files that ocsp.cpp writes: its request, and the body of the answer.
use smoll.Base.{ℕ, ◌≡◌, refl, ap, ◌∙◌, List, [], ◌∷◌, Option, none, some, Bytes, codes}
use smoll.Crypto.Ocsp.{
  Flow, returns, exits, Gnutls, load_certs, generate_request, find_responder, finished, World,
  read_response, query, search, main,
}
use smoll.Crypto.Ocsp.Verified.{
  Accepted, IsRequest, generate_request-IsRequest, ended_finished, searched-finished,
  response-Accepted,
}

abbrev request_file : Bytes
request_file = codes "ocsp-request.bin"

abbrev response_file : Bytes
response_file = codes "ocsp-response.bin"

module _ {C Q R : Type 0} (tls : Gnutls C Q R) (world : World) where
  -- The body is written behind `stoul`, which may throw, and in front of the checks.
  unfoldable response_written : Bytes × Option ℕ → List (Bytes × Bytes)
  response_written (body, none) = []
  response_written (body, some content_length) = (response_file, body) ∷ []

  unfoldable request_written : Bytes → Flow Bytes → List (Bytes × Bytes)
  unfolding response_written
  request_written uri (exits why) = []
  request_written uri (returns req) = (request_file, req) ∷ response_written (world.post uri req)

  unfoldable query_written : C → C → Option Bytes → Option (Flow Bytes) → List (Bytes × Bytes)
  unfolding request_written
  query_written cert issuer (some nonce) (some (returns uri)) =
      request_written uri (generate_request tls cert issuer (some nonce))
  query_written cert issuer random found = []

  unfoldable certs_written : ℕ → Flow (C × C × C) → List (Bytes × Bytes)
  unfolding query_written
  certs_written fuel (exits why) = []
  certs_written fuel (returns (cert, issuer, signer)) =
      query_written cert issuer world.random (find_responder tls fuel cert 0)

  -- What the program has written when it ends, with its arguments.
  unfoldable pub written : ℕ → List Bytes → List (Bytes × Bytes)
  unfolding certs_written
  written fuel (cert_file ∷ issuer_file ∷ signer_file ∷ rest) =
      certs_written fuel (load_certs tls world cert_file issuer_file signer_file)
  written fuel args = []

  -- The request for the loaded certificates and the random nonce, and an accepted response to it, are
  -- what is written.
  pub record Kept (certs : Flow (C × C × C)) (files : List (Bytes × Bytes)) (status : ℕ)
      : Type 0 where
    pub cert : C
    pub issuer : C
    pub signer : C
    pub nonce : Bytes
    pub req : Bytes
    pub body : Bytes
    pub from_files : certs ≡ returns (cert, issuer, signer)
    pub drawn : world.random ≡ some nonce
    pub requested : IsRequest tls cert issuer nonce req
    pub accepted : Accepted tls body cert signer nonce status
    pub both : files ≡ (request_file, req) ∷ (response_file, body) ∷ []

  answer-written :
      (uri nonce : Bytes) (cert signer : C) (status : ℕ) (answer : Bytes × Option ℕ)
      → read_response tls world uri cert signer nonce answer ≡ finished status
      → response_written answer ≡ (response_file, answer.0) ∷ []
  unfolding read_response response_written
  answer-written uri nonce cert signer status (body, none) h = absurd (cc)
  answer-written uri nonce cert signer status (body, some n) h = refl

  query-Kept :
      (uri : Bytes) (cert issuer signer : C) (status : ℕ) (random : Option Bytes)
      → world.random ≡ random
      → query tls world uri cert issuer signer random ≡ finished status
      → Kept
          (returns (cert, issuer, signer))
          (query_written cert issuer random (some (returns uri)))
          status
  unfolding query query_written request_written
  query-Kept uri cert issuer signer status none r h = absurd (cc)
  query-Kept uri cert issuer signer status (some nonce) r h =
      let (req, made, read) = ended_finished _ _ status h in
      record {
        cert = cert;
        issuer = issuer;
        signer = signer;
        nonce = nonce;
        req = req;
        body = (world.post uri req).0;
        from_files = refl;
        drawn = r;
        requested = generate_request-IsRequest tls cert issuer nonce req made;
        accepted =
            response-Accepted tls world uri nonce cert signer status (world.post uri req) read;
        both =
            ap (request_written uri) made
            ∙ ap (λ l. (request_file, req) ∷ l)
                (answer-written uri nonce cert signer status (world.post uri req) read);
      }

  search-Kept :
      (fuel : ℕ) (loaded : Flow (C × C × C)) (status : ℕ)
      → search tls world fuel loaded ≡ some (finished status)
      → Kept loaded (certs_written fuel loaded) status
  unfolding search certs_written
  search-Kept fuel (exits why) status h = absurd (cc)
  search-Kept fuel (returns (cert, issuer, signer)) status h =
      let (uri, found, rest) = searched-finished _ _ status h in
      rw found (query-Kept uri cert issuer signer status world.random refl rest)

  -- Where the program comes to its end and prints a status, the first file that it has written is the
  -- request, made for the certificate and the issuer that were loaded from its arguments with the random
  -- nonce; the second one is the very response that was accepted with this status, against the loaded
  -- certificate and signer and that nonce; and there is no other.
  pub main-Kept :
      (fuel : ℕ) (cert_file issuer_file signer_file : Bytes) (rest : List Bytes) (status : ℕ)
      → main tls world fuel (cert_file ∷ issuer_file ∷ signer_file ∷ rest) ≡ some (finished status)
      → Kept
          (load_certs tls world cert_file issuer_file signer_file)
          (written fuel (cert_file ∷ issuer_file ∷ signer_file ∷ rest))
          status
  unfolding main written
  main-Kept fuel cert_file issuer_file signer_file rest status h = search-Kept fuel _ status h
