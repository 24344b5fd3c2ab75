-- ===== src/Arduino.antt =====
-- arduino/serial-tests.ino: `loop`, which prints how many bytes wait and then the first of them. What
-- comes in while it waits is the environment's.
use smoll.Base.{
  ℕ, zero, suc, ◌≤◌, ◌≡◌, refl, ap, ◌∙◌, List, [], ◌∷◌, ◌++◌, Bool, true, false, Bytes, length,
  replicate, append-nil, append_assoc, arith,
}

-- What a run of `loop` has printed, whether it has returned, and what waits in the buffer.
pub record Run : Type 0 where
  pub lines : List (ℕ × ℕ)
  pub returned : Bool
  pub buffer : Bytes

abbrev pub behind : ℕ × ℕ → Run → Run
behind line r = record r { lines = line ∷ r.lines }

-- The two lines of a round are a pair. Each `delay` brings the next bytes of the list; where the list
-- ends, the last `delay` goes on.
unfoldable pub loop : List Bytes → Bytes → Run
loop arriving [] = record { lines = []; returned = true; buffer = [] }
loop [] (val ∷ rest) = record {
  lines = (length (val ∷ rest), val) ∷ [];
  returned = false;
  buffer = rest;
}
loop (now ∷ later) (val ∷ rest) = behind (length (val ∷ rest), val) (loop later (rest ++ now))

abbrev pub values : List (ℕ × ℕ) → Bytes
values [] = []
values (line ∷ lines) = line.1 ∷ values lines

abbrev pub joined : List Bytes → Bytes
joined [] = []
joined (now ∷ later) = now ++ joined later

-- Where nothing comes in, `loop` prints every byte of the buffer once, in order, and returns.
pub loop_alone :
    (buffer : Bytes) (n : ℕ)
    → length buffer ≤ n
    → (values (loop (replicate n []) buffer).lines ≡ buffer)
      × ((loop (replicate n []) buffer).returned ≡ true)
unfolding loop
loop_alone [] zero h = (refl, refl)
loop_alone [] (suc n) h = (refl, refl)
loop_alone (val ∷ rest) zero h = absurd (omega arith)
loop_alone (val ∷ rest) (suc n) h =
    let (all, over) = loop_alone rest n (omega arith) in
    rw (append-nil rest) (ap (λ l. val ∷ l) all, over)

-- Whatever comes in, the bytes are printed in the order of their arrival: those printed by a run that
-- has not returned, those in its buffer, and none besides.
pub loop_in_order :
    (arriving : List Bytes) (buffer : Bytes)
    → (loop arriving buffer).returned ≡ false
    → values (loop arriving buffer).lines ++ (loop arriving buffer).buffer
      ≡ buffer ++ joined arriving
unfolding loop
loop_in_order arriving [] h = cc
loop_in_order [] (val ∷ rest) h = ap (λ l. val ∷ l) (rw (append-nil rest) refl)
loop_in_order (now ∷ later) (val ∷ rest) h =
    ap (λ l. val ∷ l) (loop_in_order later (rest ++ now) h ∙ append_assoc rest now (joined later))
