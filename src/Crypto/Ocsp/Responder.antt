-- ===== src/Crypto/Ocsp/Responder.antt =====
-- The search of ocsp.cpp for the address of the responder.
use smoll.Base.{ℕ, zero, suc, ◌+◌, ◌<◌, ◌≡◌, ◌≢◌, refl, sym, ap, some, Bytes, arith}
use smoll.Crypto.Ocsp.{
  no_uri, uri_error, Flow, returns, exits, Gnutls, Access, not_available, other_error, address,
  find_responder, unknown_algorithm,
}

abbrev pub outcome : Access → Flow Bytes
outcome unknown_algorithm = exits uri_error
outcome not_available = exits no_uri
outcome other_error = exits uri_error
outcome (address uri) = returns uri

module _ {C Q R : Type 0} (tls : Gnutls C Q R) (cert : C) where
  find_here :
      (fuel seq : ℕ) (a : Access)
      → tls.authority_access cert seq ≡ a
      → a ≢ unknown_algorithm
      → find_responder tls (suc fuel) cert seq ≡ some (outcome a)
  unfolding find_responder
  find_here fuel seq unknown_algorithm e other = absurd (other refl)
  find_here fuel seq not_available e other = rw (e, find_responder) refl
  find_here fuel seq other_error e other = rw (e, find_responder) refl
  find_here fuel seq (address uri) e other = rw (e, find_responder) refl

  find_from :
      (n fuel seq last : ℕ)
      → n < fuel
      → last ≡ seq + n
      → ((k : ℕ) → k < last → tls.authority_access cert k ≡ unknown_algorithm)
      → tls.authority_access cert last ≢ unknown_algorithm
      → find_responder tls fuel cert seq ≡ some (outcome (tls.authority_access cert last))
  unfolding find_responder
  find_from n zero seq last h e skip other = absurd (omega arith)
  find_from zero (suc fuel) seq last h e skip other =
      let here : last ≡ seq = omega arith in
      find_here fuel seq _ (ap (λ k. tls.authority_access cert k) (sym here)) other
  find_from (suc n) (suc fuel) seq last h e skip other =
      rw (skip seq (omega arith), find_responder)
        (find_from n fuel (seq + 1) last (omega arith) (omega arith) skip other)

  -- With more fuel than the entries before the first one of another kind than an unknown algorithm,
  -- the search ends at that entry: with its address, or with the exit for its error.
  pub find_responder_first :
      (n fuel : ℕ)
      → n < fuel
      → ((k : ℕ) → k < n → tls.authority_access cert k ≡ unknown_algorithm)
      → tls.authority_access cert n ≢ unknown_algorithm
      → find_responder tls fuel cert 0 ≡ some (outcome (tls.authority_access cert n))
  find_responder_first n fuel h skip other = find_from n fuel 0 n h (omega arith) skip other
