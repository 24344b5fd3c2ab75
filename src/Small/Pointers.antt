-- ===== src/Small/Pointers.antt =====
-- cpp/pointers.cpp: `local_pointers`. The two variables are blocks of one element, which the end of the
-- scope gives back; a null pointer is none.
use smoll.Base.{ℕ, ◌≡◌, refl, List, [], ◌∷◌, Option, none, some}
use smoll.Small.Heap.{int, Heap, ◌>>=◌, allocate, load, store, free, number}

-- What `print` writes: the values, the addresses that the references have, and the values there.
pub record Printed : Type 0 where
  pub v1 : ℕ
  pub v2 : ℕ
  pub address1 : ℕ
  pub address2 : ℕ
  pub p1 : ℕ
  pub p2 : ℕ

unfoldable pub read : ℕ → Heap → Option ℕ
read p heap = do v ← load p 0 heap; number v

unfoldable pub print : ℕ → ℕ → ℕ → ℕ → Heap → Option Printed
unfolding read
print v1 v2 p1 p2 heap = do
  a ← read v1 heap
  b ← read v2 heap
  c ← read p1 heap
  d ← read p2 heap
  some (record { v1 = a; v2 = b; address1 = p1; address2 = p2; p1 = c; p2 = d })

-- `delete` of a pointer; that of a null pointer does nothing.
abbrev pub delete : Option ℕ → Heap → Option Heap
delete none heap = some heap
delete (some p) heap = free p heap

unfoldable pub new_int : ℕ → Heap → Option (ℕ × Heap)
new_int n heap =
    let (p, grown) = allocate 1 heap in do written ← store p 0 (int n) grown; some (p, written)

-- What is printed, and the memory behind the end of the scope.
unfoldable pub local_pointers : Option (List Printed × Heap)
unfolding print new_int
local_pointers = do
  (v1, heap1) ← new_int 1 []
  (v2, heap2) ← new_int 2 heap1
  first ← print v1 v2 v1 v2 heap2
  n ← read v1 heap2
  heap3 ← store v1 0 (int n) heap2
  second ← print v1 v2 v1 v1 heap3
  (p, heap4) ← some (allocate 1 heap3)
  heap5 ← delete (some p) heap4
  heap6 ← delete none heap5
  (q, heap7) ← new_int 3 heap6
  third ← print v1 v2 q v1 heap7
  heap8 ← delete (some v1) heap7
  heap9 ← delete (some v2) heap8
  some (first ∷ second ∷ third ∷ [], heap9)

abbrev final_memory : {A : Type 0} → Option (A × Heap) → Heap
final_memory none = []
final_memory (some r) = r.1

-- The integer 3 is still there when the scope has ended.
leaked : final_memory local_pointers ≡ none ∷ none ∷ none ∷ some (some (int 3) ∷ []) ∷ []
unfolding local_pointers load store free
leaked = refl
