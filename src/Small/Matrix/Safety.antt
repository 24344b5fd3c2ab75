-- ===== src/Small/Matrix/Safety.antt =====
-- The program of cpp/array_2d.cpp never leaves its memory, prints the sums, and frees all it has taken.
use smoll.Base.{
  ℕ, zero, suc, ◌+◌, ◌<◌, ◌≤◌, ◌≡◌, refl, sym, ap, ◌∙◌, subst, List, [], ◌∷◌, ◌++◌, none, some,
  arith, length, get_elem?, set, replicate, length-set, length-replicate, get_elem?-set_same,
  get_elem?-set_other, all_same-replicate, append-nil, append_assoc, inl, inr,
}
use smoll.Small.Heap.{pointer, Block, Heap, block, free}
use smoll.Small.Heap.Laws.{block-set_other, load_live, free_live, block-some}
use smoll.Small.Matrix.{for_loop, row, new_row, fill_row, print_cell, print_row, delete_row, main}
use smoll.Small.Matrix.Table.{for_loop_keeps, lt_cases, IsTable, row_of, new_row-IsTable}
use smoll.Small.Matrix.Filling.{IsSum, IsFilled, fill_row-IsFilled}

-- What the program prints: the sums, row by row.
abbrev pub sums_from : ℕ → ℕ → List ℕ
sums_from n zero = []
sums_from n (suc rounds) = n ∷ sums_from (suc n) rounds

abbrev pub grid_from : ℕ → ℕ → ℕ → List ℕ
grid_from height i zero = []
grid_from height i (suc rows) = sums_from i height ++ grid_from height (suc i) rows

module _ (width height : ℕ) where
  print_cell-some :
      (i j : ℕ) (heap : Heap) (out : List ℕ)
      → row 0 i heap ≡ some (suc i)
      → IsSum width height heap i j
      → print_cell heap 0 i j out ≡ some (out ++ (i + j) ∷ [])
  unfolding print_cell
  print_cell-some i j heap out at written = rw (at, written, print_cell) refl

  print_cells :
      (i : ℕ) (heap : Heap) (rounds j : ℕ) (out : List ℕ)
      → row 0 i heap ≡ some (suc i)
      → ((l : ℕ) → l < j + rounds → IsSum width height heap i l)
      → for_loop rounds j (print_cell heap 0 i) out ≡ some (out ++ sums_from (i + j) rounds)
  unfolding for_loop
  print_cells i heap zero j out at written = ap some (sym (append-nil out))
  print_cells i heap (suc rounds) j out at written =
      rw (print_cell-some i j heap out at (written j (omega arith)), for_loop)
        (print_cells i heap rounds (suc j) (out ++ (i + j) ∷ []) at
          (λ l less. written l (omega arith)))
      ∙ ap some (append_assoc out ((i + j) ∷ []) (sums_from (i + suc j) rounds))
      ∙ ap (λ n. some (out ++ (i + j) ∷ sums_from n rounds)) (omega arith)

  print_row-some :
      (i : ℕ) (heap : Heap) (out : List ℕ)
      → i < width
      → IsFilled width height width 0 heap
      → print_row heap height 0 i out ≡ some (out ++ sums_from i height)
  unfolding print_row
  print_row-some i heap out hi f =
      print_cells i heap height 0 out (row_of width height width i heap f.table hi)
        (λ l less. f.above i l hi (omega arith))
      ∙ ap (λ n. some (out ++ sums_from n height)) (omega arith)

  print_rows :
      (heap : Heap) (rows i : ℕ) (out : List ℕ)
      → i + rows ≡ width
      → IsFilled width height width 0 heap
      → for_loop rows i (print_row heap height 0) out ≡ some (out ++ grid_from height i rows)
  unfolding for_loop
  print_rows heap zero i out end f = ap some (sym (append-nil out))
  print_rows heap (suc rows) i out end f =
      rw (print_row-some i heap out (omega arith) f, for_loop)
        (print_rows heap rows (suc i) (out ++ sums_from i height) (omega arith) f)
      ∙ ap some (append_assoc out (sums_from i height) (grid_from height (suc i) rows))

  -- The rows in front of `i` are freed, and the others live.
  record IsEmptied (i : ℕ) (heap : Heap) : Type 0 where
    size : length heap ≡ suc width
    table : Block
    table_at : block heap 0 ≡ some table
    points : (k : ℕ) → k < width → get_elem? table k ≡ some (some (pointer (suc k)))
    freed : (k : ℕ) → k < i → get_elem? heap (suc k) ≡ some none
    live : (k : ℕ) → i ≤ k → k < width → (b : Block) × (block heap (suc k) ≡ some b)

  delete_row-IsEmptied :
      (i : ℕ) (heap : Heap)
      → i < width
      → IsEmptied i heap
      → (rest : Heap) × (delete_row 0 i heap ≡ some rest) × IsEmptied (suc i) rest
  unfolding delete_row
  delete_row-IsEmptied i heap hi f =
      let (b, at) = f.live i (omega arith) hi in
      (
        set heap (suc i) none,
        rw (load_live 0 i heap f.table (pointer (suc i)) f.table_at (f.points i hi), delete_row)
            (free_live (suc i) heap b at),
        record {
          size = length-set heap (suc i) none ∙ f.size;
          table = f.table;
          table_at = block-set_other heap (suc i) 0 none (λ e. omega arith) ∙ f.table_at;
          points = f.points;
          freed = λ k hk. elim (lt_cases k i hk) [
            | inl old ↦
                get_elem?-set_other heap (suc i) (suc k) none (λ e. omega arith) ∙ f.freed k old
            | inr last ↦
                subst (λ m. get_elem? (set heap (suc i) none) (suc m) ≡ some none) (sym last)
                  (get_elem?-set_same heap (suc i) none (some b) (block-some heap (suc i) b at))
          ];
          live = λ k above hk.
              let (c, c_at) = f.live k (omega arith) hk in
              (c, block-set_other heap (suc i) (suc k) none (λ e. omega arith) ∙ c_at);
        },
      )

  -- Once the table is freed too, nothing is live.
  free-all : (heap : Heap) → IsEmptied width heap → free 0 heap ≡ some (replicate (suc width) none)
  free-all heap f =
      free_live 0 heap f.table f.table_at
      ∙ ap some (
          all_same-replicate (set heap 0 none) none
            (λ a less. dead a (omega (arith, length-set heap 0 none, f.size)))
          ∙ ap (λ n. replicate n none) (length-set heap 0 none ∙ f.size))
    where
      dead : (a : ℕ) → a < suc width → get_elem? (set heap 0 none) a ≡ some none
      dead zero less =
          get_elem?-set_same heap 0 none (some f.table) (block-some heap 0 f.table f.table_at)
      dead (suc k) less =
          get_elem?-set_other heap 0 (suc k) none (λ e. omega arith) ∙ f.freed k (omega arith)

-- For every width and height the program makes no access outside its memory, reads no element that it
-- has not written, and deletes nothing twice; it prints the sums i + j row by row, and when it ends
-- the table and every row are freed: no block is left.
pub main-frees :
    (width height : ℕ)
    → main width height ≡ some (grid_from height 0 width, replicate (suc width) none)
unfolding main
main-frees width height =
    let (rows, e1, table) =
      for_loop_keeps (λ i h. IsTable width height i h) (new_row height 0) width 0 width begun
        (omega arith) (λ i h less t. new_row-IsTable width height i h less t) begun-IsTable in
    let (filled, e2, f) =
      for_loop_keeps (λ i h. IsFilled width height i 0 h) (fill_row height 0) width 0 width rows
        (omega arith) (λ i h less g. fill_row-IsFilled width height i h less g)
        (record {
          table = table;
          above = λ k l hk hl. absurd (omega arith);
          left = λ l hl. absurd (omega arith);
        }) in
    let (emptied, e3, g) =
      for_loop_keeps (λ i h. IsEmptied width height i h) (delete_row 0) width 0 width filled
        (omega arith) (λ i h less d. delete_row-IsEmptied width height i h less d)
        (record {
          size = f.table.size;
          table = f.table.table;
          table_at = f.table.table_at;
          points = f.table.points;
          freed = λ k hk. absurd (omega arith);
          live = λ k above hk. let (b, at, sized) = f.table.cells_at k hk in (b, at);
        }) in
    rw
      (
        e1,
        e2,
        print_rows width height filled width 0 [] (omega arith) f,
        e3,
        free-all width height emptied g,
        main,
      )
      refl
  where
    begun : Heap
    begun = some (replicate width none) ∷ []

    begun-IsTable : IsTable width height 0 begun
    begun-IsTable = record {
      size = refl;
      table = replicate width none;
      table_at = refl;
      table_size = length-replicate width none;
      points = λ k hk. absurd (omega arith);
      cells_at = λ k hk. absurd (omega arith);
    }
