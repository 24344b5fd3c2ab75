-- ===== src/Opendht/FutureGet.antt =====
-- cpp/opendht/future-get.cpp: the get that is wrapped with a future, and the text of the other get, which
-- dhtclient_async.cpp logs too.
pub mod Program
mod Tests
use smoll.Base.{
  ◌≡◌, refl, sym, ap, ◌∙◌, List, [], ◌∷◌, ◌++◌, Bool, Option, none, some, Bytes, codes,
  append_assoc, append-nil,
}

-- The vector and the promise that both callbacks share. A second `set_value` throws: none.
pub record Shared (V : Type 0) : Type 0 where
  pub values : List V
  pub promised : Option (List V)

module _ {V : Type 0} where
  abbrev pub new_shared : Shared V
  new_shared = record { values = []; promised = none }

  -- The callback on values.
  unfoldable pub on_values : List V → Shared V → Shared V
  on_values vlist s = record s { values = s.values ++ vlist }

  -- The callback at the end: the vector is moved into the promise, whatever `ok` is.
  unfoldable pub on_done : Bool → Shared V → Option (Shared V)
  on_done ok s = elim (s.promised) [
    | none ↦ some (record { values = []; promised = some s.values })
    | some vs ↦ none
  ]

  unfoldable pub on_all : List (List V) → Shared V → Shared V
  unfolding on_values
  on_all [] s = s
  on_all (vlist ∷ vlists) s = on_all vlists (on_values vlist s)

  abbrev pub gathered : List (List V) → List V
  gathered [] = []
  gathered (vlist ∷ vlists) = vlist ++ gathered vlists

  on_all-gathered :
      (vlists : List (List V)) (s : Shared V)
      → on_all vlists s ≡ record { values = s.values ++ gathered vlists; promised = s.promised }
  unfolding on_all
  on_all-gathered [] s = ap (λ vs. record s { values = vs }) (sym (append-nil s.values))
  on_all-gathered (vlist ∷ vlists) s =
      on_all-gathered vlists (on_values vlist s)
      ∙ ap (λ vs. record { values = vs; promised = s.promised })
          (append_assoc s.values vlist (gathered vlists))

  -- What the callbacks log: each value with a space behind it.
  unfoldable pub values_text : (V → Bytes) → List V → Bytes
  values_text to_string [] = []
  values_text to_string (v ∷ vs) = to_string v ++ (codes " " ++ values_text to_string vs)

  unfoldable pub get_text : (V → Bytes) → List V → Bytes
  unfolding values_text
  get_text to_string vs = codes "[get::cb] values = " ++ values_text to_string vs
