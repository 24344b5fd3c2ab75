-- ===== src/Small/Window.antt =====
-- cpp/glfw_cb_context.cpp: the callback that finds its context in the window. GLFW is the environment: how
-- often a round of its events asks for the window to be closed.
use smoll.Base.{
  ℕ, zero, suc, ◌≡◌, refl, List, [], ◌∷◌, ◌++◌, Bool, true, false, Option, none, some, Bytes, codes,
  replicate,
}

-- The user pointer is set where `glfwSetWindowUserPointer` has run, and the callback where it is set.
pub record Window : Type 0 where
  pub user_pointer : Bool
  pub close_callback : Bool
  pub should_close : Bool

abbrev pub created : Window
created = record { user_pointer = false; close_callback = false; should_close = false }

-- `wcc` of the window; none is a context that is not there.
unfoldable pub wcc : Window → Option Bytes
wcc w = elim (w.user_pointer) [ true ↦ some (codes "foo\nbar\n") | false ↦ none ]

-- The window behind both calls of `main`.
abbrev pub prepared : Window
prepared = record created { user_pointer = true; close_callback = true }

abbrev pub before : Bytes → Option Bytes → Option Bytes
before out none = none
before out (some more) = some (out ++ more)

-- `glfwPollEvents`, with some requests to close: what the callback prints.
unfoldable pub poll_events : ℕ → Window → Option Bytes
unfolding wcc
poll_events zero w = some []
poll_events (suc requests) w =
    let rest = poll_events requests w in
    elim (w.close_callback) [
      | false ↦ rest
      | true ↦ elim (wcc w) [ none ↦ none | some out ↦ before out rest ]
    ]

-- The loop, by the requests of each round: what is printed, and whether it has ended.
unfoldable pub loop : List ℕ → Window → Option (Bytes × Bool)
unfolding poll_events
loop [] w = some ([], false)
loop (zero ∷ rounds) w = loop rounds w
loop (suc requests ∷ rounds) w = elim (poll_events (suc requests) w) [
  | none ↦ none
  | some out ↦ some (out, true)
]

unfoldable pub main : List ℕ → Option (Bytes × Bool)
unfolding loop
main rounds = loop rounds prepared

-- The loop goes on as long as no round asks for an end, and the first that does prints both lines.
main_ends :
    (n : ℕ) (later : List ℕ)
    → (main (replicate n 0 ++ 1 ∷ later) ≡ some (codes "foo\nbar\n", true))
      × (main (replicate n 0) ≡ some ([], false))
unfolding main
main_ends zero later = (refl, refl)
main_ends (suc n) later = main_ends n later
