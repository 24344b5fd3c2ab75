-- ===== src/Crypto/ValidCa.antt =====
-- cpp/crypto/gnutls/valid_ca.cpp: `main`, with the handshake loop and LOOP_CHECK. GnuTLS and the
-- sockets are a parameter: the calls are answered one after the other by the lists of a `Peer`.
pub mod Loops
pub mod Releases
use smoll.Base.{
  ℕ, zero, suc, ◌+◌, ◌<◌, ◌≡◌, ◌≢◌, refl, sym, ap, ◌∙◌, List, [], ◌∷◌, ◌++◌, Bool, true, false, not,
  ◌&&◌, ◌||◌, Option, none, some, Bytes, codes, arith, ltb, leb, ◌==◌, if◌then◌else◌, length,
}

-- The return value of a call: `GNUTLS_E_AGAIN`, `GNUTLS_E_INTERRUPTED`,
-- `GNUTLS_E_CERTIFICATE_VERIFICATION_ERROR`, another negative value, these two with whether
-- `gnutls_error_is_fatal` holds of them, or a length.
pub data Ret : Type 0 where
  again interrupted : Ret
  bad_certificate error : Bool → Ret
  done : ℕ → Ret

-- `ret < 0`.
abbrev pub is_negative : Ret → Bool
is_negative (done n) = false
is_negative r = true

-- `gnutls_error_is_fatal`.
abbrev pub is_fatal : Ret → Bool
is_fatal (bad_certificate fatal) = fatal
is_fatal (error fatal) = fatal
is_fatal r = false

-- The handshake loop on the values that its calls return: the last one, and the values left. `none` is
-- a loop that still runs where the list ends.
unfoldable pub handshake : List Ret → Option Ret
handshake [] = none
handshake (r ∷ rs) =
    let rest = handshake rs in if is_negative r && not (is_fatal r) then rest else some r

-- `rval == GNUTLS_E_AGAIN || rval == GNUTLS_E_INTERRUPTED`.
abbrev pub is_retried : Ret → Bool
is_retried again = true
is_retried interrupted = true
is_retried r = false

-- How the program ends.
pub data Ending : Type 0 where
  usage no_socket invalid_address connection_failed : Ending
  -- `assert` failed.
  aborted : Ending
  send_failed recv_failed : Ending
  succeeded : Ending
  -- A loop still runs where the list ends.
  waiting : Ending

-- LOOP_CHECK, and what follows it.
unfoldable pub loop_check : List Ret → (Ret → Ending) → Ending
loop_check [] k = waiting
loop_check (r ∷ rs) k =
    let rest = loop_check rs k in
    if is_retried r then rest else if is_negative r then aborted else k r

-- What GnuTLS and the sockets answer: whether each of the set-up calls under CHECK succeeds, the
-- values of the three loops, and the report on a certificate.
pub record Peer : Type 0 where
  pub socket_open : Bool
  pub valid_address : Bool
  pub setup : List Bool
  pub connects : Bool
  pub handshakes : List Ret
  pub status_printed : Bool
  pub sends : List Ret
  pub receives : List Ret

abbrev pub every : List Bool → Bool
every [] = true
every (b ∷ bs) = b && every bs

-- The part from the request on.
unfoldable pub received : Ret → Ending
received r = if is_negative r then recv_failed else succeeded

unfoldable pub sent : Peer → Ret → Ending
unfolding received
sent peer r = if is_negative r then send_failed else loop_check peer.receives received

unfoldable pub talk : Peer → Ending
unfolding sent
talk peer = loop_check peer.sends (sent peer)

-- The branches after the handshake: each goes on, unless the report on the certificate fails.
unfoldable pub handshaken : Peer → Ret → Ending
unfolding talk
handshaken peer (bad_certificate fatal) = if peer.status_printed then talk peer else aborted
handshaken peer r = talk peer

unfoldable pub established : Peer → Option Ret → Ending
unfolding handshaken
established peer none = waiting
established peer (some r) = handshaken peer r

-- `argc`, and what the program is answered.
unfoldable pub main : ℕ → Peer → Ending
unfolding established handshake
main argc peer =
    if ltb argc 5
    then usage
    else if not peer.socket_open
    then no_socket
    else if not peer.valid_address
    then invalid_address
    else if not (every peer.setup)
    then aborted
    else if not peer.connects
    then connection_failed
    else established peer (handshake peer.handshakes)
