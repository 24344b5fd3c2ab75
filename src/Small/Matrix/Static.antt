-- ===== src/Small/Matrix/Static.antt =====
-- cpp/array_2d.cpp: the array that is initialised where it is declared, for any width and height. Its
-- elements stand row by row in one block; the addresses that are printed are offsets in it.
use smoll.Base.{
  ℕ, zero, suc, ◌+◌, ◌*◌, ◌<◌, ◌≤◌, ◌≡◌, refl, sym, ap, ◌∙◌, List, [], ◌∷◌, ◌++◌, Option, some,
  arith, length, take, get_elem?, get_elem?_lt,
}
use smoll.Small.Heap.{◌>>=◌}
use smoll.Small.Matrix.{for_loop}
use smoll.Small.Matrix.Table.{for_loop_keeps}

-- The offset of `*(array + i) + j`.
abbrev pub offset : ℕ → ℕ → ℕ → ℕ
offset height i j = i * height + j

-- `*(*(array + i) + j)`, behind what was printed; none is an access outside.
unfoldable pub print_element : List ℕ → ℕ → ℕ → ℕ → List ℕ → Option (List ℕ)
print_element array height i j out = do
  n ← get_elem? array (offset height i j)
  some (out ++ n ∷ [])

unfoldable pub print_elements : List ℕ → ℕ → ℕ → List ℕ → Option (List ℕ)
unfolding for_loop print_element
print_elements array height i out = for_loop height 0 (print_element array height i) out

-- The offsets of `array + 1` and `*(array + 1)`, the element there, and the loop.
unfoldable pub static_part : ℕ → ℕ → List ℕ → Option ((ℕ × ℕ) × (ℕ × List ℕ))
unfolding for_loop print_elements
static_part width height array = do
  first ← get_elem? array (offset height 1 0)
  out ← for_loop width 0 (print_elements array height) []
  some ((offset height 1 0, offset height 1 0), (first, out))

take-step :
    (xs : List ℕ) (n x : ℕ) → get_elem? xs n ≡ some x → take n xs ++ x ∷ [] ≡ take (suc n) xs
take-step [] n x e = ground arith
take-step (y ∷ xs) zero x e = ground arith
take-step (y ∷ xs) (suc n) x e = ap (λ l. y ∷ l) (take-step xs n x e)

take-all : (xs : List ℕ) (n : ℕ) → length xs ≤ n → take n xs ≡ xs
take-all [] zero h = refl
take-all [] (suc n) h = refl
take-all (x ∷ xs) zero h = absurd (omega arith)
take-all (x ∷ xs) (suc n) h = ap (λ l. x ∷ l) (take-all xs n (omega arith))

offset_inside : (width height i j : ℕ) → i < width → j < height → offset height i j < width * height
offset_inside width height i j h k = grind arith

module _ (width height : ℕ) (array : List ℕ) (whole : length array ≡ width * height) where
  print_element_next :
      (i j : ℕ) (out : List ℕ)
      → i < width
      → j < height
      → out ≡ take (offset height i j) array
      → (next : List ℕ) × (print_element array height i j out ≡ some next)
        × (next ≡ take (offset height i (suc j)) array)
  unfolding print_element
  print_element_next i j out h k e =
      let (x, found) =
        get_elem?_lt array (offset height i j)
          (omega (arith, whole, offset_inside width height i j h k)) in
      let shifted : suc (offset height i j) ≡ offset height i (suc j) = omega arith in
      (
        out ++ x ∷ [],
        rw (found) refl,
        ap (λ l. l ++ x ∷ []) e
            ∙ take-step array (offset height i j) x found
            ∙ ap (λ n. take n array) shifted,
      )

  print_elements_next :
      (i : ℕ) (out : List ℕ)
      → i < width
      → out ≡ take (i * height) array
      → (next : List ℕ) × (print_elements array height i out ≡ some next)
        × (next ≡ take (suc i * height) array)
  unfolding print_elements
  print_elements_next i out h e =
      let (next, ran, last) =
        for_loop_keeps (λ j t. t ≡ take (offset height i j) array) (print_element array height i)
          height 0 height out (omega arith) (λ j t k kept. print_element_next i j t h k kept)
          (e ∙ ap (λ n. take n array) (omega arith)) in
      (next, ran, last ∙ ap (λ n. take n array) (grind arith))

  -- For every width, not 0 or 1, every height, not 0, and every array of that size: the loop prints all elements, in
  -- the order in which they stand in memory, and the element printed before is the first of the
  -- second row; no access is outside of the array.
  pub static_part_prints :
      1 < width
      → 0 < height
      → (x : ℕ) × (get_elem? array height ≡ some x)
        × (static_part width height array ≡ some ((height, height), (x, array)))
  unfolding static_part
  static_part_prints h k =
      let (x, found) =
        get_elem?_lt array (offset height 1 0)
          (omega (arith, whole, offset_inside width height 1 0 h k)) in
      let none_yet : 0 ≡ 0 * height = grind arith in
      let (out, ran, last) =
        for_loop_keeps (λ i t. t ≡ take (i * height) array) (print_elements array height) width 0
          width [] (omega arith) (λ i t less kept. print_elements_next i t less kept)
          (ap (λ n. take n array) none_yet) in
      let all : out ≡ array = last ∙ take-all array (width * height) (omega (arith, whole)) in
      let second : offset height 1 0 ≡ height = grind arith in
      (
        x,
        ap (get_elem? array) (sym second) ∙ found,
        rw (found, ran, all) (ap (λ n. some ((n, n), (x, array))) second),
      )
