-- ===== src/Sudoku/Program.antt =====
-- lab1/src/Sudoku/TearcherCode/main.cc: the puzzles of a file, one after the other, solved and checked.
-- A line is what fgets has put into `puzzle`.
use cloud_computing_lab.Base.{
  ℕ, zero, suc, ◌+◌, Bool, true, false, List, [], ◌∷◌, ◌++◌, Result, ok, ◌>>=◌, Option, none, some,
  leb, ◌==◌, length,
}
use cloud_computing_lab.Text.{Str}
use cloud_computing_lab.Sudoku.Neighbors.{n_cells, assert, init_neighbors}
use cloud_computing_lab.Sudoku.Solver.{
  State, Table, input, solve_sudoku_basic, solve_sudoku_min_arity,
}
use cloud_computing_lab.Sudoku.Cache.{Cache, init_cache, solve_sudoku_min_arity_cache}
use cloud_computing_lab.Sudoku.Solved.{solved}

-- The function that `solve` points to; the dancing links are not among them.
pub data Method : Type 0 where
  by_basic by_min_arity by_cache : Method

-- `argv[2]`; a letter for the dancing links gives none.
unfoldable pub method_of : Option Str → Option Method
method_of none = some by_basic
method_of (some []) = some by_basic
method_of (some (c ∷ word)) = elim (c == b'a') [
  | true ↦ some by_min_arity
  | false ↦ elim (c == b'c') [
    | true ↦ some by_cache
    | false ↦ elim (c == b'd') [ true ↦ none | false ↦ some by_basic ]
  ]
]

-- `solve(0)`
unfoldable pub solve_by : Method → Table → Cache → Result (Bool × State)
solve_by by_basic table c = solve_sudoku_basic table 0 c.state
solve_by by_min_arity table c = solve_sudoku_min_arity table 0 c.state
solve_by by_cache table c = do
  (done, c1) ← solve_sudoku_min_arity_cache table 0 c
  ok (done, c1.state)

-- `total`, `total_solved` and the puzzles that are printed behind "No: ".
pub record Score : Type 0 where
  pub total : ℕ
  pub total_solved : ℕ
  pub unsolved : List Str

-- The N characters that `input` reads.
abbrev pub take : ℕ → Str → Str
take zero text = []
take (suc n) [] = []
take (suc n) (c ∷ text) = c ∷ take n text

-- What is done with the answer of the solver.
unfoldable pub record_answer : Str → Score → Bool → State → Result Score
unfolding assert
record_answer puzzle r true s = do
  right ← solved s.board
  assert right (ok (record r { total_solved = r.total_solved + 1 }))
record_answer puzzle r false s = ok (record r { unsolved = r.unsolved ++ puzzle ∷ [] })

-- The body of the first if of the loop of `main`.
unfoldable pub play : Method → Table → Str → Score → Result Score
unfolding solve_by record_answer
play method table puzzle r = do
  s ← input (take n_cells puzzle)
  c ← init_cache table s
  (done, s1) ← solve_by method table c
  record_answer puzzle (record r { total = r.total + 1 }) done s1

-- The loop of `main` over the lines.
unfoldable pub play_all : Method → Table → List Str → Score → Result Score
unfolding play
play_all method table [] r = ok r
play_all method table (puzzle ∷ lines) r = elim (leb n_cells (length puzzle)) [
  | true ↦ do r1 ← play method table puzzle r; play_all method table lines r1
  | false ↦ play_all method table lines r
]

-- `main` but for the time.
unfoldable pub main : Method → List Str → Result Score
unfolding play_all
main method lines = do
  table ← init_neighbors
  play_all method table lines (record { total = 0; total_solved = 0; unsolved = [] })
