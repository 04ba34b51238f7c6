-- ===== src/Tests/Answers.antt =====
-- The solvers of lab1/src/Sudoku/TearcherCode on two puzzles: what they decide.
use cloud_computing_lab.Base.{ℕ, ◌≡◌, refl, arith, Bool, false, not, ◌∷◌, ok, replicate, pos}
use cloud_computing_lab.Text.{Str}
use cloud_computing_lab.Sudoku.Neighbors.{assert}
use cloud_computing_lab.Sudoku.Solver.{
  State, at, find_spaces, input, available, arity, solve_sudoku_min_arity,
}
use cloud_computing_lab.Sudoku.Backtrack.{basic, run}
use cloud_computing_lab.Sudoku.Input.{input-IsReady}
use cloud_computing_lab.Sudoku.Cache.{
  Cache, Marks, init_cache, is_occupied, solve_sudoku_min_arity_cache,
}
use cloud_computing_lab.Sudoku.Cache.Hold.{AreSame}
use cloud_computing_lab.Sudoku.Cache.Init.{init_cache_right}
use cloud_computing_lab.Sudoku.Answers.{IsAnswer, solvers_decide, cached_refines}
use cloud_computing_lab.Tests.Puzzles.{table, table_made, stuck, blank, stuck-Proper, blank-Proper}

-- The puzzles as `input` reads them.
abbrev pub stuck_text : Str
stuck_text = b'0' ∷ b'1' ∷ b'2' ∷ b'3' ∷ b'4' ∷ b'5' ∷ b'6' ∷ b'7' ∷ b'8' ∷ b'9' ∷ replicate 71 b'0'

abbrev pub blank_text : Str
blank_text = replicate 81 b'0'

pub stuck_read : input stuck_text ≡ ok stuck
unfolding input assert
stuck_read = refl

pub blank_read : input blank_text ≡ ok blank
unfolding input assert
blank_read = refl

solvers_decide_example :
    (x : Bool × State) × (run basic table 0 stuck ≡ ok x) × IsAnswer table stuck x
solvers_decide_example =
    solvers_decide basic table stuck_text stuck table_made refl stuck_read stuck-Proper

cached_refines_example :
    (c : Cache) × (x : Bool × State) × (m : Marks) × (init_cache table blank ≡ ok c)
    × (solve_sudoku_min_arity table 0 blank ≡ ok x)
    × (solve_sudoku_min_arity_cache table 0 c ≡ ok (x.0, record { state = x.1; marks = m }))
    × (x.0 ≡ false → AreSame m c.marks)
cached_refines_example =
    cached_refines table blank_text blank table_made refl blank_read blank-Proper

-- The digit 4 at the first cell of the first puzzle.
init_cache_right_example :
    (c : Cache) × (taken : Bool) × (n : ℕ) × (init_cache table stuck ≡ ok c)
    × (is_occupied c.marks.occupied 0 4 ≡ ok taken)
    × (available table stuck.board 4 0 ≡ ok (not taken))
    × (at c.marks.arity 0 ≡ ok (pos n))
    × (arity table stuck.board 0 ≡ ok n)
unfolding find_spaces
init_cache_right_example =
    init_cache_right table stuck 0 4 table_made
      (input-IsReady table stuck_text stuck refl stuck_read stuck-Proper).board refl
      (omega arith, omega arith)
