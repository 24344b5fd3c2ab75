-- ===== src/Opendht/PutGet.antt =====
-- cpp/opendht/putget.cpp: the loop that puts the arguments, with its `int8_t` index and its flag, and
-- the text printed of the values found. `answered i` says whether the callback of a put has run by the
-- end of the wait for argument `i`.
pub mod Puts
use smoll.Base.{
  ℕ, zero, suc, ◌+◌, ◌%◌, List, [], ◌∷◌, ◌++◌, map, Bool, true, false, ◌||◌, Option, none, some,
  Bytes, ltb, if◌then◌else◌, get_elem?, c_str,
}

-- A call of `node.put`, or a wait for the flag, of at most ten seconds.
pub data Act : Type 0 where
  put : Bytes → Act
  wait : Act

-- The loop is over, or `argv[i]` is read at a negative index.
pub data Ending : Type 0 where
  finished out_of_bounds : Ending

pub record Outcome : Type 0 where
  pub acts : List Act
  pub ending : Ending

-- `wait_for` with its predicate: it returns at once where the flag is set.
abbrev pub waits : Bool → List Act
waits true = []
waits false = wait ∷ []

abbrev pub before : List Act → Option Outcome → Option Outcome
before acts none = none
before acts (some p) = some (record { acts = acts ++ p.acts; ending = p.ending })

-- The loop from the index `i` on, which is -(256 - i) from 128 on, and then below `argc`. `argv` ends
-- where `i` reaches `argc`. `none` is fuel that ran out.
unfoldable pub put_loop : (ℕ → Bool) → ℕ → List Bytes → ℕ → Bool → Option Outcome
put_loop answered zero argv i node_action = none
put_loop answered (suc fuel) argv i node_action =
    let rest = put_loop answered fuel argv ((i + 1) % 256) (node_action || answered i) in
    if ltb 127 i
    then some (record { acts = []; ending = out_of_bounds })
    else elim (get_elem? argv i) [
      | none ↦ some (record { acts = []; ending = finished })
      | some value ↦ before (put value ∷ waits node_action) rest
    ]

-- `main` up to the call of `get`.
unfoldable pub put_all : (ℕ → Bool) → List Bytes → Option Outcome
unfolding put_loop
put_all answered argv = put_loop answered 128 argv 2 false

-- The last loop: what is printed of the values.
unfoldable pub print_values : List Bytes → List Bytes
unfolding c_str
print_values [] = []
print_values (blob ∷ values) = c_str blob ∷ print_values values
