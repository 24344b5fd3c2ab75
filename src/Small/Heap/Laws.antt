-- ===== src/Small/Heap/Laws.antt =====
-- What an access finds behind another one.
use smoll.Base.{
  ℕ, ◌<◌, ◌≡◌, ◌≢◌, refl, sym, ap, ◌∙◌, [], ◌∷◌, ◌++◌, Option, none, some, length, get_elem?, set,
  get_elem?-set_same, get_elem?-set_other, get_elem?_lt, get_elem?-append_left,
  get_elem?-append_last, Option-cases, inl, inr,
}
use smoll.Small.Heap.{Value, Block, Heap, joined, block, load, store, free}

pub block-some :
    (heap : Heap) (a : ℕ) (b : Block) → block heap a ≡ some b → get_elem? heap a ≡ some (some b)
block-some heap a b e = elim (Option-cases (get_elem? heap a)) [
  | inl gone ↦ absurd (cc)
  | inr (o, found) ↦ found ∙ ap some (sym (ap joined found) ∙ e)
]

pub block-append :
    (heap : Heap) (a : ℕ) (b c : Block)
    → block heap a ≡ some b
    → block (heap ++ some c ∷ []) a ≡ some b
block-append heap a b c e =
    ap joined (get_elem?-append_left heap (some c ∷ []) a (some b) (block-some heap a b e))

pub block-allocated : (heap : Heap) (b : Block) → block (heap ++ some b ∷ []) (length heap) ≡ some b
block-allocated heap b = ap joined (get_elem?-append_last heap [] (some b))

pub block-set_same :
    (heap : Heap) (a : ℕ) (b c : Block)
    → block heap a ≡ some b
    → block (set heap a (some c)) a ≡ some c
block-set_same heap a b c e =
    ap joined (get_elem?-set_same heap a (some c) (some b) (block-some heap a b e))

pub block-set_other :
    (heap : Heap) (a c : ℕ) (o : Option Block) → a ≢ c → block (set heap a o) c ≡ block heap c
block-set_other heap a c o n = ap joined (get_elem?-set_other heap a c o n)

-- An access in bounds of a live block is defined.
pub load_live :
    (a i : ℕ) (heap : Heap) (b : Block) (v : Value)
    → block heap a ≡ some b
    → get_elem? b i ≡ some (some v)
    → load a i heap ≡ some v
unfolding load
load_live a i heap b v e f = rw (e, load) (ap joined f)

pub store_live :
    (a i : ℕ) (v : Value) (heap : Heap) (b : Block)
    → block heap a ≡ some b
    → i < length b
    → store a i v heap ≡ some (set heap a (some (set b i (some v))))
unfolding store
store_live a i v heap b e h = let (old, f) = get_elem?_lt b i h in rw (e, store) (rw f refl)

pub free_live :
    (a : ℕ) (heap : Heap) (b : Block) → block heap a ≡ some b → free a heap ≡ some (set heap a none)
unfolding free
free_live a heap b e = rw (e, free) refl

load_of :
    (a i : ℕ) (heap : Heap) (b : Block)
    → block heap a ≡ some b
    → load a i heap ≡ joined (get_elem? b i)
unfolding load
load_of a i heap b e = rw (e, load) refl

-- A load of what was stored, and of another element.
pub load-stored :
    (a i : ℕ) (v : Value) (heap : Heap) (b : Block)
    → block heap a ≡ some b
    → i < length b
    → load a i (set heap a (some (set b i (some v)))) ≡ some v
load-stored a i v heap b e h =
    let (old, f) = get_elem?_lt b i h in
    load_live a i _ (set b i (some v)) v (block-set_same heap a b (set b i (some v)) e)
      (get_elem?-set_same b i (some v) old f)

pub load-other_element :
    (a i j : ℕ) (v w : Value) (heap : Heap) (b : Block)
    → block heap a ≡ some b
    → i ≢ j
    → load a j heap ≡ some w
    → load a j (set heap a (some (set b i (some v)))) ≡ some w
load-other_element a i j v w heap b e n f =
    load_of a j _ (set b i (some v)) (block-set_same heap a b (set b i (some v)) e)
    ∙ ap joined (get_elem?-set_other b i j (some v) n)
    ∙ sym (load_of a j heap b e)
    ∙ f

pub load-other_block :
    (a c j : ℕ) (o : Option Block) (heap : Heap) → a ≢ c → load c j (set heap a o) ≡ load c j heap
unfolding load
load-other_block a c j o heap n = rw (block-set_other heap a c o n) refl
