-- ===== src/Crypto/Ocsp/Finished.antt =====
-- When ocsp.cpp comes to its end: from three certificates and an accepted response to the status.
use smoll.Base.{ℕ, ◌<◌, ◌≡◌, ap, ◌∙◌, List, ◌∷◌, some, Bytes}
use smoll.Crypto.Ocsp.{
  returns, Gnutls, unknown_algorithm, address, load_certs, generate_request, find_responder,
  finished, World, read_response, query, search, main,
}
use smoll.Crypto.Ocsp.Verified.{Accepted, Accepted-returns}
use smoll.Crypto.Ocsp.Responder.{find_responder_first, outcome}

module _ {C Q R : Type 0} (tls : Gnutls C Q R) (world : World) where
  query-finishes :
      (uri nonce req body : Bytes) (cert issuer signer : C) (content_length status : ℕ)
      → generate_request tls cert issuer (some nonce) ≡ returns req
      → world.post uri req ≡ (body, some content_length)
      → Accepted tls body cert signer nonce status
      → query tls world uri cert issuer signer (some nonce) ≡ finished status
  unfolding query read_response
  query-finishes uri nonce req body cert issuer signer content_length status made answer accepted =
      let reads : read_response tls world uri cert signer nonce (body, some content_length)
          ≡ finished status =
        rw (Accepted-returns tls body cert signer nonce status accepted, read_response) in
      rw (made, query) (ap (read_response tls world uri cert signer nonce) answer ∙ reads)

  found-address :
      (cert : C) (n fuel : ℕ) (uri : Bytes)
      → n < fuel
      → ((k : ℕ) → k < n → tls.authority_access cert k ≡ unknown_algorithm)
      → tls.authority_access cert n ≡ address uri
      → find_responder tls fuel cert 0 ≡ some (returns uri)
  found-address cert n fuel uri h skip e =
      find_responder_first tls cert n fuel h skip (λ same. cc) ∙ ap (λ a. some (outcome a)) e

  -- Take three files that hold certificates, whose first one has an address behind `n` entries of
  -- unknown kinds, random bytes, a request that GnuTLS makes with them as its nonce, an answer from
  -- that address with a number as its Content-Length, and a body that is accepted for the certificate,
  -- the signer and that nonce. With more rounds than `n` for the search, the program comes to its end
  -- and prints the status of the response.
  pub main_finishes :
      (cert_file issuer_file signer_file : Bytes) (rest : List Bytes) (cert issuer signer : C)
      (n fuel content_length status : ℕ) (uri nonce req body : Bytes)
      → load_certs tls world cert_file issuer_file signer_file ≡ returns (cert, issuer, signer)
      → n < fuel
      → ((k : ℕ) → k < n → tls.authority_access cert k ≡ unknown_algorithm)
      → tls.authority_access cert n ≡ address uri
      → world.random ≡ some nonce
      → generate_request tls cert issuer (some nonce) ≡ returns req
      → world.post uri req ≡ (body, some content_length)
      → Accepted tls body cert signer nonce status
      → main tls world fuel (cert_file ∷ issuer_file ∷ signer_file ∷ rest) ≡ some (finished status)
  unfolding main search
  main_finishes cert_file issuer_file signer_file rest cert issuer signer n fuel content_length
        status uri nonce req body loaded h skip e random made answer accepted =
      rw (
        loaded,
        found-address cert n fuel uri h skip e,
        random,
        query-finishes uri nonce req body cert issuer signer content_length status made answer
            accepted,
        main,
        search,
      )
