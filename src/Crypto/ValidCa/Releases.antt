-- ===== src/Crypto/ValidCa/Releases.antt =====
-- What valid_ca.cpp acquires of the system and of GnuTLS, and what it gives back.
use smoll.Base.{
  ℕ, ◌≡◌, refl, sym, subst, ap, ◌∙◌, List, [], ◌∷◌, ◌++◌, Bool, true, false, not, ltb,
  if◌then◌else◌, arith, length, Option, none, some,
}
use smoll.Crypto.ValidCa.{
  Ending, usage, no_socket, invalid_address, aborted, succeeded, connection_failed, every, Peer,
  main,
}

pub data Call : Type 0 where
  open_socket init_global allocate_credentials init_session : Call
  bye deinit_session free_credentials close_socket : Call

-- The calls under CHECK in front of the connection, in order, by what they acquire.
abbrev setup_calls : List (Option Call)
setup_calls =
    some init_global
    ∷ some allocate_credentials
    ∷ none
    ∷ none
    ∷ some init_session
    ∷ none
    ∷ none
    ∷ none
    ∷ []

abbrev put_call : Option Call → List Call → List Call
put_call none calls = calls
put_call (some c) calls = c ∷ calls

-- Up to the first call that fails, behind which the program aborts.
unfoldable acquired : List (Option Call) → List Bool → List Call
acquired [] bs = []
acquired (c ∷ cs) [] = []
acquired (c ∷ cs) (b ∷ bs) = let rest = acquired cs bs in if b then put_call c rest else []

-- The part from "Finish gracefully" on, which only a program that succeeds comes to.
abbrev finish : Ending → List Call
finish succeeded = bye ∷ deinit_session ∷ free_credentials ∷ close_socket ∷ []
finish e = []

unfoldable pub calls : ℕ → Peer → List Call
unfolding acquired
calls argc peer =
    if ltb argc 5
    then []
    else if not peer.socket_open
    then []
    else if not peer.valid_address
    then open_socket ∷ []
    else open_socket ∷ (acquired setup_calls peer.setup ++ finish (main argc peer))

all_calls : List (Option Call) → List Call
all_calls [] = []
all_calls (c ∷ cs) = put_call c (all_calls cs)

acquired-every :
    (cs : List (Option Call)) (bs : List Bool)
    → length bs ≡ length cs
    → every bs ≡ true
    → acquired cs bs ≡ all_calls cs
unfolding acquired all_calls
acquired-every [] bs h e = refl
acquired-every (c ∷ cs) [] h e = absurd (omega arith)
acquired-every (c ∷ cs) (false ∷ bs) h e = absurd (cc)
acquired-every (c ∷ cs) (true ∷ bs) h e = ap (put_call c) (acquired-every cs bs (omega arith) e)

-- The guards that a program has passed whose connection was tried.
record Passed (argc : ℕ) (peer : Peer) : Type 0 where
  enough : ltb argc 5 ≡ false
  opened : peer.socket_open ≡ true
  valid : peer.valid_address ≡ true
  set_up : every peer.setup ≡ true

-- An ending behind the set-up.
abbrev IsLate : Ending → Type 0
IsLate succeeded = Unit {0}
IsLate connection_failed = Unit {0}
IsLate e = ⊥

guard-IsLate :
    (b : Bool) (x y : Ending)
    → (IsLate x → ⊥)
    → IsLate (if b then x else y)
    → (b ≡ false) × IsLate y
guard-IsLate true x y early late = absurd (early late)
guard-IsLate false x y early late = (refl, late)

not-false : (b : Bool) → not b ≡ false → b ≡ true
not-false true h = refl
not-false false h = absurd (cc)

main-Passed : (argc : ℕ) (peer : Peer) → IsLate (main argc peer) → Passed argc peer
unfolding main
main-Passed argc peer late =
    let (enough, l) = guard-IsLate (ltb argc 5) usage _ (λ h. h) late in
    let (opened, m) = guard-IsLate (not peer.socket_open) no_socket _ (λ h. h) l in
    let (valid, n) = guard-IsLate (not peer.valid_address) invalid_address _ (λ h. h) m in
    let (set_up, o) = guard-IsLate (not (every peer.setup)) aborted _ (λ h. h) n in
    record {
      enough = enough;
      opened = not-false peer.socket_open opened;
      valid = not-false peer.valid_address valid;
      set_up = not-false (every peer.setup) set_up;
    }

calls-Passed :
    (argc : ℕ) (peer : Peer)
    → length peer.setup ≡ length setup_calls
    → Passed argc peer
    → calls argc peer ≡ open_socket ∷ (all_calls setup_calls ++ finish (main argc peer))
unfolding calls
calls-Passed argc peer eight p =
    rw (p.enough, p.opened, p.valid, acquired-every setup_calls peer.setup eight p.set_up, calls)
      refl

-- The eight calls of the set-up are answered. A program that succeeds has taken the socket, GnuTLS, the
-- credentials and the session, and gives back all but GnuTLS, the last one first.
pub succeeded_releases :
    (argc : ℕ) (peer : Peer)
    → length peer.setup ≡ length setup_calls
    → main argc peer ≡ succeeded
    → calls argc peer
      ≡ open_socket ∷ init_global ∷ allocate_credentials ∷ init_session ∷ bye ∷ deinit_session
        ∷ free_credentials ∷ close_socket ∷ []
unfolding all_calls
succeeded_releases argc peer eight e =
    calls-Passed argc peer eight (main-Passed argc peer (subst IsLate (sym e) tt))
    ∙ ap (λ end. open_socket ∷ (all_calls setup_calls ++ finish end)) e

-- One whose connection fails has taken the same, and gives back none of it.
pub connection_failed_keeps :
    (argc : ℕ) (peer : Peer)
    → length peer.setup ≡ length setup_calls
    → main argc peer ≡ connection_failed
    → calls argc peer ≡ open_socket ∷ init_global ∷ allocate_credentials ∷ init_session ∷ []
unfolding all_calls
connection_failed_keeps argc peer eight e =
    calls-Passed argc peer eight (main-Passed argc peer (subst IsLate (sym e) tt))
    ∙ ap (λ end. open_socket ∷ (all_calls setup_calls ++ finish end)) e
