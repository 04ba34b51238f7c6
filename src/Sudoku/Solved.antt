-- ===== src/Sudoku/Solved.antt =====
-- `solved` of lab1/src/Sudoku/TearcherCode/neighbor.cc: the check of a filled board.
use cloud_computing_lab.Base.{
  ℕ, zero, suc, ◌+◌, ◌*◌, Bool, true, false, ◌&&◌, List, [], ◌∷◌, Result, ok, ◌>>=◌, if◌then◌else◌,
  leb, ◌==◌, set, replicate,
}
use cloud_computing_lab.Sudoku.Neighbors.{assert, num}
use cloud_computing_lab.Sudoku.Solver.{at}

-- `++occurs[val];` for the value of each cell of the list
unfoldable pub tally : List ℕ → List ℕ → List ℕ → Result (List ℕ)
tally board [] occurs = ok occurs
tally board (cell ∷ cells) occurs = do
  val ← at board cell
  n ← at occurs val
  tally board cells (set occurs val (n + 1))

-- The same with the assertion that the loop over the rows makes.
unfoldable pub tally_row : List ℕ → List ℕ → List ℕ → Result (List ℕ)
unfolding assert
tally_row board [] occurs = ok occurs
tally_row board (cell ∷ cells) occurs = do
  val ← at board cell
  assert (leb 1 val && leb val num)
      (do n ← at occurs val; tally_row board cells (set occurs val (n + 1)))

-- `std::count(occurs, occurs+10, 1)`
unfoldable pub count_ones : List ℕ → ℕ
count_ones [] = 0
count_ones (n ∷ ns) = let rest = count_ones ns in if n == 1 then rest + 1 else rest

abbrev pub no_occurs : List ℕ
no_occurs = replicate 10 0

-- So many cells from one on, at a distance.
unfoldable pub stride : ℕ → ℕ → ℕ → List ℕ
stride zero cell step = []
stride (suc n) cell step = cell ∷ stride n (cell + step) step

-- The cells of a box, by its first cell, in the order of the source.
abbrev pub box : ℕ → List ℕ
box c = c ∷ (c + 1) ∷ (c + 2) ∷ (c + 9) ∷ (c + 10) ∷ (c + 11) ∷ (c + 18) ∷ (c + 19) ∷ (c + 20) ∷ []

-- Each group of cells in turn, up to the first in which not every digit occurs once.
unfoldable pub each_once : (List ℕ → List ℕ → Result (List ℕ)) → List (List ℕ) → Result Bool
unfolding count_ones
each_once count [] = ok true
each_once count (cells ∷ groups) = do
  occurs ← count cells no_occurs
  elim (count_ones occurs == num) [ true ↦ each_once count groups | false ↦ ok false ]

unfoldable pub rows_from : ℕ → ℕ → List (List ℕ)
unfolding stride
rows_from zero row = []
rows_from (suc n) row = stride num (row * num) 1 ∷ rows_from n (row + 1)

unfoldable pub cols_from : ℕ → ℕ → List (List ℕ)
unfolding stride
cols_from zero col = []
cols_from (suc n) col = stride num col num ∷ cols_from n (col + 1)

abbrev pub boxes : List (List ℕ)
boxes = box 0 ∷ box 3 ∷ box 6 ∷ box 27 ∷ box 30 ∷ box 33 ∷ box 54 ∷ box 57 ∷ box 60 ∷ []

unfoldable pub solved : List ℕ → Result Bool
unfolding tally tally_row each_once rows_from cols_from
solved board = do
  rows ← each_once (tally_row board) (rows_from num 0)
  elim rows [
    | false ↦ ok false
    | true ↦ do
      cols ← each_once (tally board) (cols_from num 0)
      elim cols [ false ↦ ok false | true ↦ each_once (tally board) boxes ]
  ]
