-- ===== src/Small/Matrix/Table.antt =====
-- The table of pointers of cpp/array_2d.cpp and its rows, as they are allocated and written.
use smoll.Base.{
  ℕ, zero, suc, ◌+◌, ◌<◌, ◌≡◌, ◌≢◌, refl, sym, ap, ◌∙◌, subst, [], ◌∷◌, ◌++◌, Option, none, some,
  arith, length, get_elem?, set, replicate, length-set, length-append, length-replicate,
  get_elem?-set_same, get_elem?-set_other, get_elem?_lt, inl, inr, ◌⊎◌,
}
use smoll.Small.Heap.{Value, pointer, Block, Heap, block}
use smoll.Small.Heap.Laws.{
  block-append, block-allocated, block-set_same, block-set_other, load_live, store_live,
}
use smoll.Small.Matrix.{for_loop, row, new_row}

-- The rule of the loop: what holds before a round, and is kept by each, holds at the end.
pub for_loop_keeps :
    {S : Type 0} (I : ℕ → S → Type 0) (body : ℕ → S → Option S) (rounds i stop : ℕ) (s : S)
    → i + rounds ≡ stop
    → ((k : ℕ) (t : S) → k < stop → I k t → (u : S) × (body k t ≡ some u) × I (suc k) u)
    → I i s
    → (t : S) × (for_loop rounds i body s ≡ some t) × I stop t
unfolding for_loop
for_loop_keeps I body zero i stop s end step h = (s, refl, subst (λ k. I k s) (omega arith) h)
for_loop_keeps I body (suc rounds) i stop s end step h =
    let (u, e, kept) = step i s (omega arith) h in
    let (t, f, last) = for_loop_keeps I body rounds (suc i) stop u (omega arith) step kept in
    (t, rw (e, for_loop) f, last)

pub lt_cases : (j k : ℕ) → j < suc k → (j < k) ⊎ (j ≡ k)
lt_cases j k h = ground arith

pub eq_cases : (j k : ℕ) → (j ≡ k) ⊎ (j ≢ k)
eq_cases j k = ground arith

module _ (width height : ℕ) where
  -- The table of pointers is at 0, and the row `k` at `suc k`, for the rows allocated so far.
  pub record IsTable (rows : ℕ) (heap : Heap) : Type 0 where
    pub size : length heap ≡ suc rows
    pub table : Block
    pub table_at : block heap 0 ≡ some table
    pub table_size : length table ≡ width
    pub points : (k : ℕ) → k < rows → get_elem? table k ≡ some (some (pointer (suc k)))
    pub cells_at :
        (k : ℕ) → k < rows → (b : Block) × (block heap (suc k) ≡ some b) × (length b ≡ height)

  pub row_of :
      (rows k : ℕ) (heap : Heap) → IsTable rows heap → k < rows → row 0 k heap ≡ some (suc k)
  unfolding row
  row_of rows k heap t h =
      rw (load_live 0 k heap t.table (pointer (suc k)) t.table_at (t.points k h), row) refl

  pub new_row-IsTable :
      (k : ℕ) (heap : Heap)
      → k < width
      → IsTable k heap
      → (grown : Heap) × (new_row height 0 k heap ≡ some grown) × IsTable (suc k) grown
  unfolding new_row
  new_row-IsTable k heap h t = (
    set grown 0 (some table),
    store_live 0 k (pointer (length heap)) grown t.table here (omega (arith, t.table_size)),
    record {
      size =
          length-set grown 0 (some table)
          ∙ length-append heap (some fresh ∷ [])
          ∙ omega (arith, t.size);
      table = table;
      table_at = block-set_same grown 0 t.table table here;
      table_size = length-set t.table k _ ∙ t.table_size;
      points = λ j less. elim (lt_cases j k less) [
        | inl old ↦ get_elem?-set_other t.table k j _ (λ e. omega arith) ∙ t.points j old
        | inr last ↦
            let (old, found) = get_elem?_lt t.table k (omega (arith, t.table_size)) in
            subst
              (λ m.
                get_elem? (set t.table k (some (pointer (length heap)))) m
                ≡ some (some (pointer (suc m))))
              (sym last)
              (get_elem?-set_same t.table k _ old found ∙ ap (λ n. some (some (pointer n))) t.size)
      ];
      cells_at = λ j less. elim (lt_cases j k less) [
        | inl old ↦
            let (b, at, sized) = t.cells_at j old in
            (
              b,
              block-set_other grown 0 (suc j) _ (λ e. omega arith)
                  ∙ block-append heap (suc j) b fresh at,
              sized,
            )
        | inr last ↦ (
          fresh,
          block-set_other grown 0 (suc j) _ (λ e. omega arith)
              ∙ subst (λ m. block grown m ≡ some fresh) (t.size ∙ ap suc (sym last))
                  (block-allocated heap fresh),
          length-replicate height none,
        )
      ];
    },
  )
    where
      fresh : Block
      fresh = replicate height none

      grown : Heap
      grown = heap ++ some fresh ∷ []

      table : Block
      table = set t.table k (some (pointer (length heap)))

      here : block grown 0 ≡ some t.table
      here = block-append heap 0 t.table fresh t.table_at

  pub write-IsTable :
      (rows i j : ℕ) (v : Value) (heap : Heap) (b : Block)
      → block heap (suc i) ≡ some b
      → length b ≡ height
      → IsTable rows heap
      → IsTable rows (set heap (suc i) (some (set b j (some v))))
  write-IsTable rows i j v heap b at sized t = record {
    size = length-set heap (suc i) _ ∙ t.size;
    table = t.table;
    table_at = block-set_other heap (suc i) 0 _ (λ e. omega arith) ∙ t.table_at;
    table_size = t.table_size;
    points = t.points;
    cells_at = λ k h. elim (eq_cases i k) [
      | inl same ↦ (
        set b j (some v),
        subst
            (λ m.
              block (set heap (suc i) (some (set b j (some v)))) (suc m) ≡ some (set b j (some v)))
            same (block-set_same heap (suc i) b _ at),
        length-set b j (some v) ∙ sized,
      )
      | inr apart ↦
          let (c, c_at, c_sized) = t.cells_at k h in
          (
            c,
            block-set_other heap (suc i) (suc k) _ (λ e. apart (omega (arith, e))) ∙ c_at,
            c_sized,
          )
    ];
  }
