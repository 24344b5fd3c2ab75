-- ===== src/Opendht/PutGet/Puts.antt =====
-- Which arguments of putget.cpp are put, and how often it waits.
use smoll.Base.{
  ℕ, zero, suc, ◌+◌, ◌%◌, ◌≡◌, ◌≤◌, ◌<◌, refl, sym, ap, ◌∙◌, List, [], ◌∷◌, ◌++◌, Bool, true, false,
  ◌||◌, Option, none, some, Bytes, ltb, if◌then◌else◌, get_elem?, drop, take, length, arith, Holds,
  Holds-some, Bool-cases, inl, inr, Option-cases, lt→ltb,
}
use smoll.Opendht.PutGet.{
  Act, put, wait, Ending, finished, out_of_bounds, Outcome, waits, before, put_loop, put_all,
}

-- The values that are put.
abbrev pub put_values : List Act → List Bytes
put_values [] = []
put_values (put value ∷ acts) = value ∷ put_values acts
put_values (wait ∷ acts) = put_values acts

abbrev pub count_waits : List Act → ℕ
count_waits [] = 0
count_waits (put value ∷ acts) = count_waits acts
count_waits (wait ∷ acts) = suc (count_waits acts)

get_elem?-drop :
    (xs : List Bytes) (i m : ℕ) (x : Bytes)
    → get_elem? xs i ≡ some x
    → i < m
    → (drop i (take m xs) ≡ x ∷ drop (suc i) (take m xs)) × (i < length xs)
get_elem?-drop [] i m x e h = absurd (cc)
get_elem?-drop (y ∷ xs) i zero x e h = absurd (omega arith)
get_elem?-drop (y ∷ xs) zero (suc m) x e h =
    let same : y ≡ x = cc in (ap (λ z. z ∷ take m xs) same, omega arith)
get_elem?-drop (y ∷ xs) (suc i) (suc m) x e h =
    let later = get_elem?-drop xs i m x e (omega arith) in (later.0, omega (arith, later.1))

drop-nil : (i : ℕ) → drop {A = Bytes} i [] ≡ []
drop-nil zero = refl
drop-nil (suc i) = refl

take-nil : (i : ℕ) → take {A = Bytes} i [] ≡ []
take-nil zero = refl
take-nil (suc i) = refl

get_elem?-end :
    (xs : List Bytes) (i m : ℕ)
    → get_elem? xs i ≡ none
    → (length xs ≤ i) × (drop i (take m xs) ≡ [])
get_elem?-end [] i m e = (omega arith, rw (take-nil m) (drop-nil i))
get_elem?-end (y ∷ xs) zero m e = absurd (cc)
get_elem?-end (y ∷ xs) (suc i) zero e =
    let later = get_elem?-end xs i 0 e in (omega (arith, later.0), refl)
get_elem?-end (y ∷ xs) (suc i) (suc m) e =
    let later = get_elem?-end xs i m e in (omega (arith, later.0), later.1)

drop-take : (i m : ℕ) (xs : List Bytes) → m ≤ i → drop i (take m xs) ≡ []
drop-take i zero xs h = drop-nil i
drop-take zero (suc m) xs h = absurd (omega arith)
drop-take (suc i) (suc m) [] h = refl
drop-take (suc i) (suc m) (x ∷ xs) h = drop-take i m xs (omega arith)

put_values-waits : (b : Bool) (acts : List Act) → put_values (waits b ++ acts) ≡ put_values acts
put_values-waits true acts = refl
put_values-waits false acts = refl

abbrev overflows : List Bytes → Ending
overflows argv = if ltb 127 (length argv) then out_of_bounds else finished

-- The loop from an index on puts the rest of the first 128 arguments.
abbrev PutsFrom : List Bytes → ℕ → Outcome → Type 0
PutsFrom argv i p = (put_values p.acts ≡ drop i (take 128 argv)) × (p.ending ≡ overflows argv)

abbrev Returns : (Outcome → Type 0) → Option Outcome → Type 0
Returns P o = (p : Outcome) × (o ≡ some p) × P p

put_loop-PutsFrom :
    (answered : ℕ → Bool) (n fuel : ℕ) (argv : List Bytes) (i : ℕ) (node_action : Bool)
    → i + n ≡ 128
    → n < fuel
    → i ≤ length argv
    → Returns (PutsFrom argv i) (put_loop answered fuel argv i node_action)
unfolding put_loop
put_loop-PutsFrom answered n zero argv i node_action e h j = absurd (omega arith)
put_loop-PutsFrom answered zero (suc fuel) argv i node_action e h j =
    let past : ltb 127 i ≡ true = lt→ltb 127 i (omega arith) in
    let many : ltb 127 (length argv) ≡ true = lt→ltb 127 (length argv) (omega arith) in
    rw (past, put_loop)
      (
        record { acts = []; ending = out_of_bounds },
        refl,
        (sym (drop-take i 128 argv (omega arith)), rw many refl),
      )
put_loop-PutsFrom answered (suc n) (suc fuel) argv i node_action e h j =
    elim (Option-cases (get_elem? argv i)) [
      | inl none_left ↦
          let (short, empty) = get_elem?-end argv i 128 none_left in
          let few : ltb 127 (length argv) ≡ false = ground arith in
          rw (within, none_left, put_loop)
            (record { acts = []; ending = finished }, refl, (sym empty, rw few refl))
      | inr (value, here) ↦
          let (split, inside) = get_elem?-drop argv i 128 value here (omega arith) in
          let next : (i + 1) % 256 ≡ suc i = omega arith in
          let (p, returned, (puts, ending)) =
            put_loop-PutsFrom answered n fuel argv (suc i) (node_action || answered i) (omega arith)
              (omega arith) (omega arith) in
          rw (within, here, put_loop, next, returned)
            (
              record { acts = put value ∷ (waits node_action ++ p.acts); ending = p.ending },
              refl,
              (
                ap (λ l. value ∷ l) (put_values-waits node_action p.acts ∙ puts) ∙ sym split,
                ending,
              ),
            )
    ]
  where
    within : ltb 127 i ≡ false
    within = ground arith

-- The loop comes to an end. It puts the arguments behind the key in their order, and all of them
-- where there are at most 127 arguments, the program's name included. Where there are more, it puts
-- those up to the 128th, and then reads in front of `argv`, because its index has wrapped around.
pub put_all_in_order :
    (answered : ℕ → Bool) (argv : List Bytes)
    → 2 ≤ length argv
    → (p : Outcome) × (put_all answered argv ≡ some p)
      × (put_values p.acts ≡ drop 2 (take 128 argv))
      × (p.ending ≡ (if ltb 127 (length argv) then out_of_bounds else finished))
unfolding put_all
put_all_in_order answered argv h =
    let (p, returned, (puts, ending)) =
      put_loop-PutsFrom answered 126 128 argv 2 false (omega arith) (omega arith) h in
    (p, returned, puts, ending)

abbrev IsSilent : Outcome → Type 0
IsSilent p = count_waits p.acts ≡ 0

before-IsSilent :
    (value : Bytes) (o : Option Outcome)
    → Holds IsSilent o
    → Holds IsSilent (before (put value ∷ waits true) o)
before-IsSilent value none h = tt
before-IsSilent value (some p) h = h

put_loop-IsSilent :
    (answered : ℕ → Bool) (fuel : ℕ) (argv : List Bytes) (i : ℕ)
    → Holds IsSilent (put_loop answered fuel argv i true)
unfolding put_loop
put_loop-IsSilent answered zero argv i = tt
put_loop-IsSilent answered (suc fuel) argv i =
    let later = put_loop-IsSilent answered fuel argv ((i + 1) % 256) in
    elim (Bool-cases (ltb 127 i)) [
      | inl past ↦ rw (past, put_loop) refl
      | inr within ↦ elim (Option-cases (get_elem? argv i)) [
        | inl nothing ↦ rw (within, nothing, put_loop) refl
        | inr (value, here) ↦
            rw (within, here, put_loop)
              (before-IsSilent value (put_loop answered fuel argv ((i + 1) % 256) true) later)
      ]
    ]

put_all_first :
    (answered : ℕ → Bool) (a b value : Bytes) (argv : List Bytes)
    → put_all answered (a ∷ b ∷ value ∷ argv)
      ≡ before (put value ∷ wait ∷ []) (put_loop answered 127 (a ∷ b ∷ value ∷ argv) 3 (answered 2))
unfolding put_all put_loop
put_all_first answered a b value argv = refl

-- Where the callback of the first put runs before its wait is over, the loop waits this once: the flag
-- is never reset, so none of the later puts is waited for, and the values are read without them.
pub put_all_waits_once :
    (answered : ℕ → Bool) (argv : List Bytes)
    → 3 ≤ length argv
    → answered 2 ≡ true
    → (p : Outcome) × (put_all answered argv ≡ some p) × (count_waits p.acts ≡ 1)
put_all_waits_once answered (a ∷ b ∷ value ∷ argv) h first =
    let all = a ∷ b ∷ value ∷ argv in
    let (p, returned, rest) =
      put_loop-PutsFrom answered 125 127 all 3 true (omega arith) (omega arith) h in
    let silent = Holds-some IsSilent _ p returned (put_loop-IsSilent answered 127 all 3) in
    (
      record { acts = put value ∷ wait ∷ p.acts; ending = p.ending },
      put_all_first answered a b value argv
          ∙ ap (before (put value ∷ wait ∷ []))
              (ap (λ action. put_loop answered 127 all 3 action) first ∙ returned),
      ap suc silent,
    )
put_all_waits_once answered [] h first = absurd (omega arith)
put_all_waits_once answered (a ∷ []) h first = absurd (omega arith)
put_all_waits_once answered (a ∷ b ∷ []) h first = absurd (omega arith)
