-- ===== src/Small/Matrix.antt =====
-- cpp/array_2d.cpp: the array of arrays on the heap, for any width and height; the program has 2 and 3.
pub mod Table
pub mod Filling
pub mod Safety
pub mod Static
mod Tests
use smoll.Base.{ℕ, zero, suc, ◌+◌, ◌≡◌, List, [], ◌∷◌, ◌++◌, Option, none, some}
use smoll.Small.Heap.{
  Value, int, pointer, Heap, ◌>>=◌, allocate, load, store, free, address, number,
}

-- `for (int i = from; ...; ++i)`, for the rounds that are left.
unfoldable pub for_loop : {S : Type 0} → ℕ → ℕ → (ℕ → S → Option S) → S → Option S
for_loop zero i body s = some s
for_loop (suc rounds) i body s = do t ← body i s; for_loop rounds (suc i) body t

-- `array2[i]`, which is a pointer.
unfoldable pub row : ℕ → ℕ → Heap → Option ℕ
row array2 i heap = do p ← load array2 i heap; address p

-- `array2[i] = new int[height]`.
unfoldable pub new_row : ℕ → ℕ → ℕ → Heap → Option Heap
new_row height array2 i heap =
    let (r, grown) = allocate height heap in store array2 i (pointer r) grown

-- `array2[i][j] = i + j`, and the loop over `j`.
unfoldable pub fill_cell : ℕ → ℕ → ℕ → Heap → Option Heap
unfolding row
fill_cell array2 i j heap = do r ← row array2 i heap; store r j (int (i + j)) heap

unfoldable pub fill_row : ℕ → ℕ → ℕ → Heap → Option Heap
unfolding for_loop fill_cell
fill_row height array2 i heap = for_loop height 0 (fill_cell array2 i) heap

-- `cout << *(*(array2 + i) + j)`, behind what was printed.
unfoldable pub print_cell : Heap → ℕ → ℕ → ℕ → List ℕ → Option (List ℕ)
unfolding row
print_cell heap array2 i j out = do
  r ← row array2 i heap
  v ← load r j heap
  n ← number v
  some (out ++ n ∷ [])

unfoldable pub print_row : Heap → ℕ → ℕ → ℕ → List ℕ → Option (List ℕ)
unfolding for_loop print_cell
print_row heap height array2 i out = for_loop height 0 (print_cell heap array2 i) out

-- `delete [] array2[i]`.
unfoldable pub delete_row : ℕ → ℕ → Heap → Option Heap
unfolding row
delete_row array2 i heap = do r ← row array2 i heap; free r heap

-- What is printed, and the memory at the end.
unfoldable pub main : ℕ → ℕ → Option (List ℕ × Heap)
unfolding for_loop new_row fill_row print_row delete_row
main width height =
    let (array2, begun) = allocate width [] in
    do
      rows ← for_loop width 0 (new_row height array2) begun
      filled ← for_loop width 0 (fill_row height array2) rows
      out ← for_loop width 0 (print_row filled height array2) []
      emptied ← for_loop width 0 (delete_row array2) filled
      over ← free array2 emptied
      some (out, over)
