-- ===== src/Small/Matrix/Filling.antt =====
-- The rows of cpp/array_2d.cpp are filled with the sums of their indices.
use smoll.Base.{ℕ, suc, ◌+◌, ◌<◌, ◌≡◌, sym, ◌∙◌, subst, some, arith, length, set, inl, inr}
use smoll.Small.Heap.{int, Block, Heap, block, load}
use smoll.Small.Heap.Laws.{store_live, load-stored, load-other_element, load-other_block}
use smoll.Small.Matrix.{fill_cell, fill_row}
use smoll.Small.Matrix.Table.{for_loop_keeps, lt_cases, IsTable, row_of, write-IsTable}

module _ (width height : ℕ) where
  -- The element at `k` and `l` is the sum that the program writes there.
  abbrev pub IsSum : Heap → ℕ → ℕ → Type 0
  IsSum heap k l = load (suc k) l heap ≡ some (int (k + l))

  -- All rows in front of `i` are written, and the row `i` in front of `j`.
  pub record IsFilled (i j : ℕ) (heap : Heap) : Type 0 where
    pub table : IsTable width height width heap
    pub above : (k l : ℕ) → k < i → l < height → IsSum heap k l
    pub left : (l : ℕ) → l < j → IsSum heap i l

  pub fill_cell-IsFilled :
      (i j : ℕ) (heap : Heap)
      → i < width
      → j < height
      → IsFilled i j heap
      → (filled : Heap) × (fill_cell 0 i j heap ≡ some filled) × IsFilled i (suc j) filled
  unfolding fill_cell
  fill_cell-IsFilled i j heap hi hj f = (
    filled,
    rw (row_of width height width i heap f.table hi, fill_cell)
        (store_live (suc i) j (int (i + j)) heap b at (omega (arith, sized))),
    record {
      table = write-IsTable width height width i j (int (i + j)) heap b at sized f.table;
      above = λ k l hk hl.
          load-other_block (suc i) (suc k) l _ heap (λ e. omega arith) ∙ f.above k l hk hl;
      left = λ l hl. elim (lt_cases l j hl) [
        | inl old ↦
            load-other_element (suc i) j l (int (i + j)) (int (i + l)) heap b at (λ e. omega arith)
              (f.left l old)
        | inr last ↦
            subst (λ m. IsSum filled i m) (sym last)
              (load-stored (suc i) j (int (i + j)) heap b at (omega (arith, sized)))
      ];
    },
  )
    where
      b : Block
      b = (f.table.cells_at i hi).0

      at : block heap (suc i) ≡ some b
      at = (f.table.cells_at i hi).1

      sized : length b ≡ height
      sized = (f.table.cells_at i hi).2

      filled : Heap
      filled = set heap (suc i) (some (set b j (some (int (i + j)))))

  pub fill_row-IsFilled :
      (i : ℕ) (heap : Heap)
      → i < width
      → IsFilled i 0 heap
      → (filled : Heap) × (fill_row height 0 i heap ≡ some filled) × IsFilled (suc i) 0 filled
  unfolding fill_row
  fill_row-IsFilled i heap hi f =
      let (filled, e, g) =
        for_loop_keeps (λ j h. IsFilled i j h) (fill_cell 0 i) height 0 height heap (omega arith)
          (λ j h less g. fill_cell-IsFilled i j h hi less g) f in
      (
        filled,
        e,
        record {
          table = g.table;
          above = λ k l hk hl. elim (lt_cases k i hk) [
            | inl old ↦ g.above k l old hl
            | inr last ↦ subst (λ m. IsSum filled m l) (sym last) (g.left l hl)
          ];
          left = λ l hl. absurd (omega arith);
        },
      )
