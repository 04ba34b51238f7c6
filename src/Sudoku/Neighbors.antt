-- ===== src/Sudoku/Neighbors.antt =====
-- lab1/src/Sudoku/TearcherCode/neighbor.cc: the table of the neighbours of each cell, and the check
-- of a solved board. A board of ROW rows and COL columns is the list of its N cells row by row.
use cloud_computing_lab.Base.{
  ℕ, zero, suc, ◌+◌, ◌*◌, ◌/◌, ◌%◌, Bool, true, false, not, ◌&&◌, ◌||◌, List, [], ◌∷◌, ◌++◌, Result,
  ok, err, failed_assertion, ◌>>=◌, in_bounds, if◌then◌else◌, ltb, ◌==◌, get_elem?, set, replicate,
  length,
}

-- `ROW`, `COL` and `NUM`
abbrev pub num : ℕ
num = 9

-- `N`
abbrev pub n_cells : ℕ
n_cells = 81

-- `NEIGHBOR`
abbrev pub n_neighbors : ℕ
n_neighbors = 20

-- `assert(b);` and what follows it
unfoldable pub assert {ℓ} : {A : Type ℓ} → Bool → Result A → Result A
assert true rest = rest
assert false rest = err failed_assertion

-- `adjacent[row][col]=true;`
unfoldable pub mark : List Bool → ℕ → ℕ → List Bool
mark adjacent row col = set adjacent (row * num + col) true

-- The loop over `i` of `mark_adjacent`, with so many rounds left.
unfoldable pub mark_lines : ℕ → ℕ → ℕ → ℕ → List Bool → List Bool
unfolding mark
mark_lines zero i row col adjacent = adjacent
mark_lines (suc left) i row col adjacent =
    mark_lines left (i + 1) row col (mark (mark adjacent row i) i col)

-- The nine assignments for the box.
unfoldable pub mark_box : ℕ → ℕ → List Bool → List Bool
unfolding mark
mark_box top left a0 =
    let a1 = mark (mark (mark a0 top left) top (left + 1)) top (left + 2) in
    let a2 = mark (mark (mark a1 (top + 1) left) (top + 1) (left + 1)) (top + 1) (left + 2) in
    mark (mark (mark a2 (top + 2) left) (top + 2) (left + 1)) (top + 2) (left + 2)

unfoldable pub mark_adjacent : List Bool → ℕ → ℕ → List Bool
unfolding mark_lines mark_box
mark_adjacent adjacent row col =
    mark_box ((row / 3) * 3) ((col / 3) * 3) (mark_lines num 0 row col adjacent)

-- The loops over `y` and `x` of `collect_neighbors` as one over the cells, of which so many are
-- left; `found` is what `myneighbors` holds.
unfoldable pub collect : ℕ → ℕ → ℕ → List Bool → List ℕ → Result (List ℕ)
unfolding assert
collect zero cell me adjacent found = ok found
collect (suc left) cell me adjacent found = do
  near ← in_bounds (get_elem? adjacent cell)
  elim (near && not (cell == me)) [
    | true ↦
        assert (ltb (length found) n_neighbors)
          (collect left (cell + 1) me adjacent (found ++ cell ∷ []))
    | false ↦ collect left (cell + 1) me adjacent found
  ]

unfoldable pub collect_neighbors : List Bool → ℕ → ℕ → Result (List ℕ)
unfolding collect assert
collect_neighbors adjacent row col = do
  found ← collect n_cells 0 (row * num + col) adjacent []
  assert (length found == n_neighbors) (ok found)

-- The body of the loops of `init_neighbors`.
unfoldable pub neighbors_of : ℕ → ℕ → Result (List ℕ)
unfolding mark_adjacent collect_neighbors
neighbors_of row col = collect_neighbors (mark_adjacent (replicate n_cells false) row col) row col

-- The loops over `row` and `col` as one over the cells, of which so many are left.
unfoldable pub init_from : ℕ → ℕ → Result (List (List ℕ))
unfolding neighbors_of
init_from zero cell = ok []
init_from (suc left) cell = do
  mine ← neighbors_of (cell / num) (cell % num)
  rest ← init_from left (cell + 1)
  ok (mine ∷ rest)

unfoldable pub init_neighbors : Result (List (List ℕ))
unfolding init_from
init_neighbors = init_from n_cells 0

-- Whether a list of cells names a cell.
abbrev pub member : ℕ → List ℕ → Bool
member x [] = false
member x (y ∷ ys) = let rest = member x ys in if y == x then true else rest

-- Two different cells in one row, one column or one box.
abbrev pub related : ℕ → ℕ → Bool
related a b =
    not (a == b)
    && ((a / 9 == b / 9)
        || ((a % 9 == b % 9) || ((a / 27 == b / 27) && ((a % 9) / 3 == (b % 9) / 3))))
