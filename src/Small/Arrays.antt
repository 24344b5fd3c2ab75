-- ===== src/Small/Arrays.antt =====
-- cpp/arrays.cpp: the elements that are compared, for any size of an int.
use smoll.Base.{ℕ, ◌≡◌, refl, List, [], ◌∷◌, Bool, ◌&&◌, Option, none, some, ◌==◌, if◌then◌else◌}
use smoll.Small.Heap.{Heap, ◌>>=◌, allocate, load, number}

-- The offsets of the addresses that are printed: `a`, `&a[0]` and `&a[0] + a_s`.
abbrev pub printed_offsets : ℕ → List ℕ
printed_offsets a_s = 0 ∷ 0 ∷ a_s ∷ []

-- `x == y == z`: the first comparison is an int again.
abbrev pub chained : ℕ → ℕ → ℕ → Bool
chained x y z = (if x == y then 1 else 0) == z

-- The results of the two comparisons.
unfoldable pub compared : ℕ → ℕ → Heap → Option (Bool × Bool)
compared a_s a heap = do
  v ← load a 1 heap
  x ← number v
  w ← load a a_s heap
  y ← number w
  some (chained x y y, x == y && x == y)

-- No element is ever written.
unfoldable pub main : ℕ → Option (Bool × Bool)
unfolding compared
main a_s = let (a, heap) = allocate 10 [] in compared a_s a heap

-- Whatever the size of an int is, the program reads an element that it has not written.
main_undefined : (a_s : ℕ) → main a_s ≡ none
unfolding main load
main_undefined a_s = refl
