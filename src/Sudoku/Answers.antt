-- ===== src/Sudoku/Answers.antt =====
-- The three back-tracking solvers of lab1/src/Sudoku/TearcherCode on a puzzle that `input` has read.
use cloud_computing_lab.Base.{◌≡◌, refl, Bool, true, false, ok, arith, length}
use cloud_computing_lab.Text.{Str}
use cloud_computing_lab.Sudoku.Neighbors.{n_cells, init_neighbors}
use cloud_computing_lab.Sudoku.Table.{made-IsBoardTable}
use cloud_computing_lab.Sudoku.Solver.{
  State, Table, Choose, choose_none, input, solve, depth, find_min_arity, solve_sudoku_basic,
  solve_sudoku_min_arity,
}
use cloud_computing_lab.Sudoku.Backtrack.{Proper, Solver, basic, min_arity, run}
use cloud_computing_lab.Sudoku.Rules.{table-IsTable}
use cloud_computing_lab.Sudoku.Search.{Chooses, choose_none-Chooses, find_min_arity-Chooses}
use cloud_computing_lab.Sudoku.Solutions.{IsSolution}
use cloud_computing_lab.Sudoku.Ready.{IsReady, NoSolution}
use cloud_computing_lab.Sudoku.Agree.{solve-Decides}
use cloud_computing_lab.Sudoku.Input.{input-IsReady}
use cloud_computing_lab.Sudoku.Cache.{Cache, Marks, init_cache, solve_sudoku_min_arity_cache}
use cloud_computing_lab.Sudoku.Cache.Hold.{AreSame}
use cloud_computing_lab.Sudoku.Cache.Init.{init_cache_lem}
use cloud_computing_lab.Sudoku.Cache.Refines.{solve-Simulates}

-- What a solver gives back for a board: a solution, or the board as it was and the proof that there
-- is none.
pub record IsAnswer (table : Table) (s : State) (x : Bool × State) : Type 0 where
  pub found : x.0 ≡ true → IsSolution table s.board x.1.board
  pub restored : x.0 ≡ false → x.1.board ≡ s.board
  pub none_exists : x.0 ≡ false → NoSolution table s.board

answered :
    (table : Table) (choose : Choose) (s : State)
    → init_neighbors ≡ ok table
    → Chooses choose
    → IsReady table 0 s
    → (x : Bool × State) × (solve table choose (depth s 0) 0 s ≡ ok x) × IsAnswer table s x
answered table choose s made chooses r =
    let (x, ran, d, none_with) =
      solve-Decides table (made-IsBoardTable table made) (table-IsTable table made) choose chooses
        (depth s 0) (length s.spaces) 0 (omega arith) s r refl in
    (x, ran, record { found = d.found; restored = d.same_board; none_exists = none_with })

-- With the table that init_neighbors makes, and a puzzle of N characters that `input` reads as a board
-- on which no cell holds the digit of one of its neighbours: either of the solvers basic and
-- min_arity ends without a fault. Where it returns true, its board is a solution: the given digits
-- stay, each empty cell has a digit from 1 to 9, and no cell holds the digit of one of its
-- neighbours. Where it returns false, the board is as it was, and it has no solution.
pub solvers_decide :
    (solver : Solver) (table : Table) (text : Str) (s : State)
    → init_neighbors ≡ ok table
    → length text ≡ n_cells
    → input text ≡ ok s
    → Proper table s.board
    → (x : Bool × State) × (run solver table 0 s ≡ ok x) × IsAnswer table s x
unfolding solve_sudoku_basic solve_sudoku_min_arity
solvers_decide basic table text s made l read proper =
    answered table choose_none s made choose_none-Chooses (input-IsReady table text s l read proper)
solvers_decide min_arity table text s made l read proper =
    answered table (find_min_arity table) s made
      (find_min_arity-Chooses table (made-IsBoardTable table made))
      (input-IsReady table text s l read proper)

-- With the table that init_neighbors makes, and a puzzle of N characters that `input` reads as a board
-- on which no cell holds the digit of one of its neighbours: the solver with cached arities, called
-- behind init_cache, returns what the solver that counts them returns, which is no fault: the same
-- answer, the same board and the same order of the spaces. If the answer is false, `occupied` and
-- `arity` are what init_cache had made, entry by entry.
pub cached_refines :
    (table : Table) (text : Str) (s : State)
    → init_neighbors ≡ ok table
    → length text ≡ n_cells
    → input text ≡ ok s
    → Proper table s.board
    → (c : Cache) × (x : Bool × State) × (m : Marks) × (init_cache table s ≡ ok c)
      × (solve_sudoku_min_arity table 0 s ≡ ok x)
      × (solve_sudoku_min_arity_cache table 0 c ≡ ok (x.0, record { state = x.1; marks = m }))
      × (x.0 ≡ false → AreSame m c.marks)
unfolding solve_sudoku_min_arity solve_sudoku_min_arity_cache
cached_refines table text s made l read proper =
    let t = made-IsBoardTable table made in
    let both = table-IsTable table made in
    let r = input-IsReady table text s l read proper in
    let (x, ran, answer) =
      answered table (find_min_arity table) s made (find_min_arity-Chooses table t) r in
    let (m0, began, cached) = init_cache_lem table s t both r.board in
    let c : Cache = record { state = s; marks = m0 } in
    let (m, ran', same) =
      solve-Simulates table t both (depth s 0) (length s.spaces) 0 (omega arith) c r cached refl x
        ran in
    (c, x, m, began, ran, ran', same)
