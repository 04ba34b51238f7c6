-- ===== src/Sudoku/Cache/Init.antt =====
-- `init_cache` of sudoku_min_arity_cache.cc: the marks agree with the board at every empty cell.
use cloud_computing_lab.Base.{
  subst, ℕ, zero, suc, ◌+◌, ◌<◌, ◌≤◌, ◌≡◌, refl, sym, ap, ◌∙◌, Bool, true, false, not, List, [],
  ◌∷◌, ok, arith, ltb, ltb→lt, get_or, set, length, replicate, Bool-cases, inl, inr, pos,
}
use cloud_computing_lab.Sudoku.Neighbors.{n_cells, num, init_neighbors}
use cloud_computing_lab.Sudoku.Table.{IsBoardTable, made-IsBoardTable}
use cloud_computing_lab.Sudoku.Backtrack.{IsTable, at-get_or}
use cloud_computing_lab.Sudoku.Rules.{table-IsTable}
use cloud_computing_lab.Sudoku.Search.{IsBoard}
use cloud_computing_lab.Sudoku.Solver.{State, Table, at, available, arity}
use cloud_computing_lab.Sudoku.Cache.{
  Cache, Marks, set_occupied, mark_neighbors, init_value, init_cell, init_cells, init_cache,
  no_marks, is_occupied,
}
use cloud_computing_lab.Sudoku.Cache.Flags.{at-inside, IsWritten, set_occupied_lem, is_occupied_lem}
use cloud_computing_lab.Sudoku.Cache.Marking.{AreMarks, mark_neighbors_lem}
use cloud_computing_lab.Sudoku.Cache.Held.{
  held, count_free, count_free-none, available_lem, arity_lem,
}
use cloud_computing_lab.Sudoku.Cache.Hold.{IsCached, IsHold, hold-IsCached}

-- The board with the cells from `i` on empty.
abbrev mask : ℕ → List ℕ → List ℕ
mask i [] = []
mask zero (x ∷ xs) = 0 ∷ mask zero xs
mask (suc i) (x ∷ xs) = x ∷ mask i xs

length-mask : (i : ℕ) (xs : List ℕ) → length (mask i xs) ≡ length xs
length-mask zero [] = refl
length-mask (suc i) [] = refl
length-mask zero (x ∷ xs) = ap suc (length-mask zero xs)
length-mask (suc i) (x ∷ xs) = ap suc (length-mask i xs)

mask_all : (i : ℕ) (xs : List ℕ) → length xs ≤ i → mask i xs ≡ xs
mask_all zero [] h = refl
mask_all (suc i) [] h = refl
mask_all zero (x ∷ xs) h = absurd (omega arith)
mask_all (suc i) (x ∷ xs) h = ap (λ y. x ∷ y) (mask_all i xs (omega arith))

mask-zero : (xs : List ℕ) (i : ℕ) → get_or (mask zero xs) i 0 ≡ 0
mask-zero [] i = refl
mask-zero (x ∷ xs) zero = refl
mask-zero (x ∷ xs) (suc i) = mask-zero xs i

mask_at : (i : ℕ) (xs : List ℕ) → get_or (mask i xs) i 0 ≡ 0
mask_at zero [] = refl
mask_at (suc i) [] = refl
mask_at zero (x ∷ xs) = refl
mask_at (suc i) (x ∷ xs) = mask_at i xs

mask_next : (i : ℕ) (xs : List ℕ) → set (mask i xs) i (get_or xs i 0) ≡ mask (suc i) xs
mask_next zero [] = refl
mask_next (suc i) [] = refl
mask_next zero (x ∷ xs) = refl
mask_next (suc i) (x ∷ xs) = ap (λ y. x ∷ y) (mask_next i xs)

set_zero : (xs : List ℕ) (i : ℕ) → get_or xs i 0 ≡ 0 → set xs i 0 ≡ xs
set_zero [] i h = refl
set_zero (x ∷ xs) zero h = ap (λ y. y ∷ xs) (sym h)
set_zero (x ∷ xs) (suc i) h = ap (λ y. x ∷ y) (set_zero xs i h)

-- A blank board.
blank_held : (board near : List ℕ) (v : ℕ) → 1 ≤ v → held (mask zero board) v near ≡ false
blank_held board [] v low = refl
blank_held board (n ∷ near) v low = ground (arith, mask-zero board n, blank_held board near v low)

replicate-get_or {ℓ} : {A : Type ℓ} (n i : ℕ) (a d : A) → i < n → get_or (replicate n a) i d ≡ a
replicate-get_or zero i a d h = absurd (omega arith)
replicate-get_or (suc n) zero a d h = refl
replicate-get_or (suc n) (suc i) a d h = replicate-get_or n i a d (omega arith)

outside : (xs : List ℕ) (i : ℕ) → get_or xs i 1 ≡ 0 → i < length xs
outside [] i h = absurd (omega (arith, h))
outside (x ∷ xs) zero h = omega arith
outside (x ∷ xs) (suc i) h = omega (arith, outside xs i h)

no_marks-AreMarks : AreMarks no_marks
no_marks-AreMarks = record {
  shape = record {
    rows = refl;
    row = λ x lt. ap length (replicate-get_or n_cells x (replicate 10 false) [] lt);
  };
  arities = refl;
}

no_flag : (n v : ℕ) → get_or (replicate n false) v false ≡ false
no_flag zero v = refl
no_flag (suc n) zero = refl
no_flag (suc n) (suc v) = no_flag n v

no_marks-IsCached :
    (table : Table) (board : List ℕ)
    → length board ≡ n_cells
    → IsCached table (mask zero board) no_marks
no_marks-IsCached table board cells = record {
  marks = no_marks-AreMarks;
  flags = λ x v e (low, high).
      let lt = outside (mask zero board) x e in
      let inside : x < n_cells = omega (arith, lt, cells, length-mask zero board) in
      ap (λ r. get_or r v false) (replicate-get_or n_cells x (replicate 10 false) [] inside)
      ∙ no_flag 10 v
      ∙ sym (blank_held board (get_or table x []) v low);
  counts = λ x e.
      let lt = outside (mask zero board) x e in
      let inside : x < n_cells = omega (arith, lt, cells, length-mask zero board) in
      replicate-get_or n_cells x (pos num) (pos 0) inside
      ∙ ap pos (
          sym (
            count_free-none (mask zero board) (get_or table x []) 9 1
              (λ w le. blank_held board (get_or table x []) w le)));
}

-- A mark of the digit 0 changes nothing.
zero_marked :
    (table : Table) (board : List ℕ) (m : Marks) (cell : ℕ) (own : List (List Bool))
    → IsWritten m.occupied cell 0 true own
    → IsCached table board m
    → IsCached table board (record { occupied = own; arity = m.arity })
zero_marked table board m cell own w h = record {
  marks = record { shape = w.shape; arities = h.marks.arities };
  flags = λ x v e (low, high). ground (arith, w.entry x v, h.flags x v e (low, high), low);
  counts = h.counts;
}

init_cell_run :
    (table : Table) (board : List ℕ) (i val : ℕ) (m : Marks) (zeroed : List (List Bool))
    → set_occupied m.occupied i 0 true ≡ ok zeroed
    → at board i ≡ ok val
    → init_cell table board i m ≡ elim (ltb 0 val) [
      | true ↦ init_value table i val (record { occupied = zeroed; arity = m.arity })
      | false ↦ ok (record { occupied = zeroed; arity = m.arity })
    ]
unfolding init_cell
init_cell_run table board i val m zeroed wrote read = rw (wrote, read) refl

init_value_run :
    (table : Table) (i val : ℕ) (m m1 : Marks) (near modified : List ℕ) (own : List (List Bool))
    → set_occupied m.occupied i val true ≡ ok own
    → at table i ≡ ok near
    → mark_neighbors val near (record { occupied = own; arity = m.arity }) ≡ ok (m1, modified)
    → init_value table i val m ≡ ok m1
unfolding init_value
init_value_run table i val m m1 near modified own wrote found ran = rw (wrote, found, ran) refl

init_cell_lem :
    (table : Table) (board : List ℕ) (i : ℕ) (m : Marks)
    → IsBoardTable table
    → IsTable table
    → IsBoard board
    → i < n_cells
    → IsCached table (mask i board) m
    → (m1 : Marks) × (init_cell table board i m ≡ ok m1) × IsCached table (mask (suc i) board) m1
init_cell_lem table board i m t both b lt h =
    let cells = b.cells in
    let (zeroed, wrote0, written0) =
      set_occupied_lem m.occupied i 0 true h.marks.shape lt (omega arith) in
    let read = at-inside board i 0 (omega (arith, cells, lt)) in
    let val = get_or board i 0 in
    let high : val ≤ 9 = b.values i val read in
    let m0 : Marks = record { occupied = zeroed; arity = m.arity } in
    let h0 = zero_marked table (mask i board) m i zeroed written0 h in
    let number = t.number in
    let near = get_or table i [] in
    let found = at-inside table i [] (omega (arith, number, lt)) in
    let run = init_cell_run table board i val m zeroed wrote0 read in
    elim (Bool-cases (ltb 0 val)) [
      | inl filled ↦
          let (own, wrote, written) =
            set_occupied_lem zeroed i val true written0.shape lt (omega (arith, high)) in
          let (m1, modified, ran, marked) =
            mark_neighbors_lem val near (record { occupied = own; arity = m.arity })
              (record { shape = written.shape; arities = h.marks.arities }) (t.row i lt).inside
              (omega (arith, high)) in
          let held_now : IsHold near i val m0 m1 modified = record {
            own = own;
            written = written;
            marked = marked;
          } in
          let cached =
            hold-IsCached table t both (mask i board) i val (length-mask i board ∙ cells) lt
              (mask_at i board) (ltb→lt 0 val filled) high m0 m1 modified held_now h0 in
          (
            m1,
            run ∙ rw filled (init_value_run table i val m0 m1 near modified own wrote found ran),
            subst (λ z. IsCached table z m1) (mask_next i board) cached,
          )
      | inr blank ↦
          let none : val ≡ 0 = ground (arith, blank) in
          (
            m0,
            run ∙ rw blank refl,
            subst (λ z. IsCached table z m0)
                (sym (set_zero (mask i board) i (mask_at i board))
                  ∙ ap (set (mask i board) i) (sym none)
                  ∙ mask_next i board)
                h0,
          )
    ]

init_cells_lem :
    (left : ℕ) (table : Table) (board : List ℕ) (i : ℕ) (m : Marks)
    → IsBoardTable table
    → IsTable table
    → IsBoard board
    → left + i ≡ n_cells
    → IsCached table (mask i board) m
    → (m1 : Marks) × (init_cells left table board i m ≡ ok m1) × IsCached table board m1
unfolding init_cells
init_cells_lem zero table board i m t both b total h =
    let cells = b.cells in
    (m, refl, subst (λ z. IsCached table z m) (mask_all i board (omega (arith, cells, total))) h)
init_cells_lem (suc left) table board i m t both b total h =
    let (m1, first, h1) = init_cell_lem table board i m t both b (omega (arith, total)) h in
    let next : i + 1 ≡ suc i = omega arith in
    let (m2, rest, h2) =
      init_cells_lem left table board (i + 1) m1 t both b (omega (arith, total))
        (subst (λ n. IsCached table (mask n board) m1) (sym next) h1) in
    (m2, rw first rest, h2)

pub init_cache_lem :
    (table : Table) (s : State)
    → IsBoardTable table
    → IsTable table
    → IsBoard s.board
    → (m : Marks) × (init_cache table s ≡ ok (record { state = s; marks = m }))
      × IsCached table s.board m
unfolding init_cache
init_cache_lem table s t both b =
    let (m, ran, h) =
      init_cells_lem n_cells table s.board 0 no_marks t both b refl
        (no_marks-IsCached table s.board b.cells) in
    (m, rw ran refl, h)

-- With the table that init_neighbors makes, and a board of N cells with values up to 9: init_cache
-- does not fail, and for each empty cell and each digit from 1 to 9 `occupied` is set exactly if
-- `available` of sudoku_basic.cc says that the digit is not available, and `arity` has what
-- sudoku_min_arity.cc counts.
pub init_cache_right :
    (table : Table) (s : State) (cell digit : ℕ)
    → init_neighbors ≡ ok table
    → IsBoard s.board
    → at s.board cell ≡ ok 0
    → (1 ≤ digit) × (digit ≤ 9)
    → (c : Cache) × (taken : Bool) × (n : ℕ) × (init_cache table s ≡ ok c)
      × (is_occupied c.marks.occupied cell digit ≡ ok taken)
      × (available table s.board digit cell ≡ ok (not taken))
      × (at c.marks.arity cell ≡ ok (pos n))
      × (arity table s.board cell ≡ ok n)
init_cache_right table s cell digit made b empty (low, high) =
    let t = made-IsBoardTable table made in
    let (m, ran, h) = init_cache_lem table s t (table-IsTable table made) b in
    let (blank, within) = at-get_or s.board cell 0 1 empty in
    let cells = b.cells in
    let arities = h.marks.arities in
    let lt : cell < n_cells = omega (arith, within, cells) in
    (
      record { state = s; marks = m },
      held s.board digit (get_or table cell []),
      count_free s.board (get_or table cell []) 9 1,
      ran,
      is_occupied_lem m.occupied cell digit h.marks.shape lt (omega (arith, high))
          ∙ ap ok (h.flags cell digit blank (low, high)),
      available_lem table s.board digit cell t b lt,
      at-inside m.arity cell (pos 0) (omega (arith, arities, lt)) ∙ ap ok (h.counts cell blank),
      arity_lem table s.board cell t b lt,
    )
