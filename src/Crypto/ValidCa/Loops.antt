-- ===== src/Crypto/ValidCa/Loops.antt =====
-- Where the loops of valid_ca.cpp end, and what the program makes of it.
use smoll.Base.{
  ℕ, ◌≡◌, ◌≢◌, refl, ap, List, [], ◌∷◌, ◌++◌, Bool, true, false, not, ◌&&◌, Option, none, some, ltb,
  if◌then◌else◌, All, Bool-cases, inl, inr,
}
use smoll.Crypto.ValidCa.{
  Ret, again, interrupted, bad_certificate, error, done, is_negative, is_fatal, handshake,
  is_retried, Ending, send_failed, recv_failed, loop_check, Peer, every, received, sent, talk,
  handshaken, established, main,
}

-- The handshake is to be repeated after this value.
abbrev pub IsRepeated : Ret → Type 0
IsRepeated r = (is_negative r && not (is_fatal r)) ≡ true

abbrev pub IsSettled : Ret → Type 0
IsSettled r = (is_negative r && not (is_fatal r)) ≡ false

abbrev pub Settles : List Ret → Option Ret → Type 0
Settles rs none = All IsRepeated rs
Settles rs (some r) =
    (before : List Ret) × (after : List Ret) × (rs ≡ before ++ r ∷ after)
    × All IsRepeated before
    × IsSettled r

Settles-later :
    (r : Ret) (rs : List Ret) (o : Option Ret) → IsRepeated r → Settles rs o → Settles (r ∷ rs) o
Settles-later r rs none h s = (h, s)
Settles-later r rs (some a) h (before, after, e, repeated, settled) =
    (r ∷ before, after, ap (λ l. r ∷ l) e, (h, repeated), settled)

-- The handshake loop ends with the first value that is a length or a fatal error; it goes on through
-- all the others.
pub handshake-Settles : (rs : List Ret) → Settles rs (handshake rs)
unfolding handshake
handshake-Settles [] = tt
handshake-Settles (r ∷ rs) = elim (Bool-cases (is_negative r && not (is_fatal r))) [
  | inl h ↦ rw h (Settles-later r rs (handshake rs) h (handshake-Settles rs))
  | inr h ↦ rw h ([], rs, refl, tt, h)
]

-- An ending that neither of the two messages about a failure stands in front of.
abbrev pub Unreported : Ending → Type 0
Unreported e = (e ≢ send_failed) × (e ≢ recv_failed)

loop_check-Unreported :
    (rs : List Ret) (k : Ret → Ending)
    → ((r : Ret) → is_negative r ≡ false → Unreported (k r))
    → Unreported (loop_check rs k)
unfolding loop_check
loop_check-Unreported [] k h = ((λ e. cc), (λ e. cc))
loop_check-Unreported (r ∷ rs) k h = elim (Bool-cases (is_retried r)) [
  | inl retried ↦ rw retried (loop_check-Unreported rs k h)
  | inr ended ↦ rw ended (elim (Bool-cases (is_negative r)) [
    | inl negative ↦ rw negative ((λ e. cc), (λ e. cc))
    | inr good ↦ rw good (h r good)
  ])
]

received-Unreported : (r : Ret) → is_negative r ≡ false → Unreported (received r)
unfolding received
received-Unreported r h = rw h ((λ e. cc), (λ e. cc))

sent-Unreported : (peer : Peer) (r : Ret) → is_negative r ≡ false → Unreported (sent peer r)
unfolding sent
sent-Unreported peer r h = rw h (loop_check-Unreported peer.receives received received-Unreported)

talk-Unreported : (peer : Peer) → Unreported (talk peer)
unfolding talk
talk-Unreported peer = loop_check-Unreported peer.sends (sent peer) (sent-Unreported peer)

guard-Unreported :
    (b : Bool) (x y : Ending) → Unreported x → Unreported y → Unreported (if b then x else y)
guard-Unreported true x y h j = h
guard-Unreported false x y h j = j

handshaken-Unreported : (peer : Peer) (r : Ret) → Unreported (handshaken peer r)
unfolding handshaken
handshaken-Unreported peer again = talk-Unreported peer
handshaken-Unreported peer interrupted = talk-Unreported peer
handshaken-Unreported peer (bad_certificate fatal) =
    guard-Unreported peer.status_printed _ _ (talk-Unreported peer) ((λ e. cc), (λ e. cc))
handshaken-Unreported peer (error fatal) = talk-Unreported peer
handshaken-Unreported peer (done n) = talk-Unreported peer

established-Unreported : (peer : Peer) (o : Option Ret) → Unreported (established peer o)
unfolding established
established-Unreported peer none = ((λ e. cc), (λ e. cc))
established-Unreported peer (some r) = handshaken-Unreported peer r

-- Whatever the peer answers, the program never reports that sending or receiving failed: an error of
-- either is an assertion that fails first.
pub main-Unreported : (argc : ℕ) (peer : Peer) → Unreported (main argc peer)
unfolding main
main-Unreported argc peer =
    guard-Unreported (ltb argc 5) _ _ ((λ e. cc), (λ e. cc))
      (guard-Unreported (not peer.socket_open) _ _ ((λ e. cc), (λ e. cc))
        (guard-Unreported (not peer.valid_address) _ _ ((λ e. cc), (λ e. cc))
          (guard-Unreported (not (every peer.setup)) _ _ ((λ e. cc), (λ e. cc))
            (guard-Unreported (not peer.connects) _ _ ((λ e. cc), (λ e. cc))
              (established-Unreported peer (handshake peer.handshakes))))))

-- The same peer with a handshake that returns `r`.
abbrev pub answering : Ret → Peer → Peer
answering r peer = record {
  socket_open = peer.socket_open;
  valid_address = peer.valid_address;
  setup = peer.setup;
  connects = peer.connects;
  handshakes = r ∷ [];
  status_printed = peer.status_printed;
  sends = peer.sends;
  receives = peer.receives;
}

handshaken_talks :
    (peer : Peer) (r : Ret) → peer.status_printed ≡ true → handshaken peer r ≡ talk peer
unfolding handshaken
handshaken_talks peer again h = refl
handshaken_talks peer interrupted h = refl
handshaken_talks peer (bad_certificate fatal) h = rw h refl
handshaken_talks peer (error fatal) h = refl
handshaken_talks peer (done n) h = refl

-- Where the handshake ends, and the report on a bad certificate can be printed, the program ends as it
-- does after a handshake that succeeds: a handshake that failed, on the certificate or on something
-- else, does not stop it.
pub main_ignores_handshake :
    (argc : ℕ) (peer : Peer) (r : Ret)
    → handshake peer.handshakes ≡ some r
    → peer.status_printed ≡ true
    → main argc peer ≡ main argc (answering (done 0) peer)
unfolding main established
main_ignores_handshake argc peer r h printed = rw (h, handshaken_talks peer r printed) refl
