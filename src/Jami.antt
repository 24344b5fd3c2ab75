-- ===== src/Jami.antt =====
-- cpp/jami/namedir.cpp: the calls of the Jami daemon, which is a parameter. The two callbacks only print.
use smoll.Base.{ℕ, List, [], ◌∷◌, ◌++◌, Bool, Bytes, codes, if◌then◌else◌}

pub data Call : Type 0 where
  init register_handlers start : Call
  -- The account, the name server and the address or the name.
  lookup_address lookup_name : Bytes → Bytes → Bytes → Call
  -- The account, the password and the name.
  register_name : Bytes → Bytes → Bytes → Call

pub record Daemon : Type 0 where
  pub init_succeeds : Bool
  pub start_succeeds : Bool

-- A status returned, a call that is given a null pointer for a string, or the loop without end.
pub data Ending : Type 0 where
  returns : ℕ → Ending
  null_name serves : Ending

pub record Run : Type 0 where
  pub calls : List Call
  pub ending : Ending

abbrev pub name_server : Bytes
name_server = codes "ns.jami.net"

-- `argv[4]`, where `argc` is 4 or more: the pointer behind the last argument is null.
abbrev pub lookups : Bytes → Bytes → Bytes → List Bytes → Run
lookups address account password [] = record {
  calls = lookup_address [] name_server address ∷ [];
  ending = null_name;
}
lookups address account password (username ∷ args) = record {
  calls =
      lookup_address [] name_server address
      ∷ register_name account password username
      ∷ lookup_name [] name_server username
      ∷ [];
  ending = serves;
}

abbrev pub behind : List Call → Run → Run
behind calls run = record { calls = calls ++ run.calls; ending = run.ending }

-- `main`, on the arguments behind the program's name.
unfoldable pub main : Daemon → List Bytes → Run
main daemon (address ∷ account ∷ password ∷ args) =
    if daemon.init_succeeds
    then (if daemon.start_succeeds
        then behind (init ∷ register_handlers ∷ start ∷ []) (lookups address account password args)
        else record { calls = init ∷ register_handlers ∷ start ∷ []; ending = returns 1 })
    else record { calls = init ∷ []; ending = returns 1 }
main daemon few = record { calls = []; ending = returns 1 }
