-- ===== src/Small/Heap.antt =====
-- Memory that is taken by `new[]` and given back by `delete[]`, for the programs of cpp that use it. An
-- address is the number of a block; a block that was freed leaves none behind. An access outside a
-- live block, a read of an element that was not written, and a second `delete` are undefined: none.
pub mod Laws
use smoll.Base.{
  ℕ, zero, suc, ◌+◌, ◌≡◌, refl, ap, ◌∙◌, List, [], ◌∷◌, ◌++◌, Option, none, some, length, get_elem?,
  set, replicate, Option-cases,
}

pub data Value : Type 0 where
  int : ℕ → Value
  pointer : ℕ → Value

abbrev pub Block : Type 0
Block = List (Option Value)

abbrev pub Heap : Type 0
Heap = List (Option Block)

infixl 5 ◌>>=◌
abbrev pub ◌>>=◌ : {A B : Type 0} → Option A → (A → Option B) → Option B
none >>= f = none
some a >>= f = f a

abbrev pub joined : {A : Type 0} → Option (Option A) → Option A
joined none = none
joined (some a) = a

-- `new T[n]`.
abbrev pub allocate : ℕ → Heap → ℕ × Heap
allocate n heap = (length heap, heap ++ some (replicate n none) ∷ [])

-- The block at an address, if it is live.
abbrev pub block : Heap → ℕ → Option Block
block heap a = joined (get_elem? heap a)

unfoldable pub load : ℕ → ℕ → Heap → Option Value
load a i heap = do b ← block heap a; joined (get_elem? b i)

unfoldable pub store : ℕ → ℕ → Value → Heap → Option Heap
store a i v heap = do
  b ← block heap a
  old ← get_elem? b i
  some (set heap a (some (set b i (some v))))

-- `delete [] a`.
unfoldable pub free : ℕ → Heap → Option Heap
free a heap = do b ← block heap a; some (set heap a none)

-- `*p` of a pointer.
abbrev pub address : Value → Option ℕ
address (pointer a) = some a
address (int n) = none

abbrev pub number : Value → Option ℕ
number (int n) = some n
number (pointer a) = none
