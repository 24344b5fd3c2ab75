-- ===== src/Opendht/AsyncClient.antt =====
-- cpp/opendht/dhtclient_async.cpp: the calls of `main`, in order, and what its callbacks log.
use smoll.Base.{c_str, Bool, ℕ, List, [], ◌∷◌, ◌++◌, Bytes, codes}
use smoll.Opendht.FutureGet.{values_text}
use smoll.Opendht.FutureGet.Program.{digit_of}

pub data Call : Type 0 where
  listen get : Bytes → Call
  put : Bytes → Bytes → Call
  sleep_for : ℕ → Call
  periodic connectivity_changed : Call

-- The usage message, or a client of a proxy with a key, and its calls.
pub data Run : Type 0 where
  usage : Run
  client : (address key : Bytes) → List Call → Run

unfoldable pub listen_text : {V : Type 0} → (V → Bytes) → List V → Bytes
unfolding values_text
listen_text to_string vs = codes "[listen::cb] values = " ++ values_text to_string vs

-- `main`, on the arguments behind the program's name.
unfoldable pub main : List Bytes → Run
main (hash_key ∷ address ∷ client_key ∷ args) = client address client_key (
    listen hash_key
    ∷ put hash_key (codes "slenderman")
    ∷ put hash_key (codes "spidergurl")
    ∷ get hash_key
    ∷ sleep_for 2
    ∷ periodic
    ∷ sleep_for 20
    ∷ connectivity_changed
    ∷ sleep_for 20
    ∷ [])
main few = usage

-- What the callbacks log: `%i` prints a truth value as a digit, and `%s` a text up to a NUL.
pub data Callback (V : Type 0) : Type 0 where
  listened : List V → Bool → Callback V
  put1_done put2_done : Bool → Callback V
  got : V → Callback V
  get_done : Bool → Callback V

unfoldable pub log_text : {V : Type 0} → (V → Bytes) → Callback V → Bytes
unfolding listen_text c_str
log_text to_string (listened vs expired) = c_str (listen_text to_string vs)
log_text to_string (put1_done ok) = codes "[put1::donecb] ok=" ++ digit_of ok
log_text to_string (put2_done ok) = codes "[put2::donecb] ok=" ++ digit_of ok
log_text to_string (got v) = codes "[get1::cb] value=" ++ c_str (to_string v)
log_text to_string (get_done ok) = codes "[get1::donecb] ok=" ++ digit_of ok
