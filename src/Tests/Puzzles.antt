-- ===== src/Tests/Puzzles.antt =====
-- The solvers of lab1/src/Sudoku/TearcherCode on two boards.
use cloud_computing_lab.Base.{
  ℕ, zero, suc, ◌+◌, ◌<◌, ◌≤◌, ◌≡◌, refl, inl, inr, Bool, true, false, not, ◌&&◌, and-true, List,
  [], ◌∷◌, Result, ok, err, arith, ltb, ltb→lt, ltb→ge, ◌==◌, ==_iff, get_or, replicate, length,
  Bool-cases,
}
use cloud_computing_lab.Sudoku.Neighbors.{
  assert, mark, mark_lines, mark_box, mark_adjacent, collect, collect_neighbors, neighbors_of,
  init_from, init_neighbors, member, related, n_cells, n_neighbors,
}
use cloud_computing_lab.Sudoku.Table.{
  IsBoardTable, made-IsBoardTable, member-outside, init_neighbors_right,
}
use cloud_computing_lab.Sudoku.Solver.{
  State, Table, find_spaces, none_holds, available, try_guess, guess_loop, solve,
  solve_sudoku_basic, solve_sudoku_min_arity, find_min_arity, search_min, swap_spaces, arity,
  occupy, count_false,
}
use cloud_computing_lab.Sudoku.Backtrack.{Proper, basic, min_arity, run, clash}
use cloud_computing_lab.Sudoku.Solved.{
  solved, tally, tally_row, each_once, count_ones, rows_from, cols_from, stride,
}
use cloud_computing_lab.Sudoku.Rules.{solve-Proper, failure_restores}

-- No clash of one cell with `left` cells from `b` on, and of `left` cells with all.
abbrev row_proper : ℕ → ℕ → Table → List ℕ → ℕ → Bool
row_proper zero b table board a = true
row_proper (suc left) b table board a =
    let rest = row_proper left (b + 1) table board a in not (clash table board a b) && rest

abbrev all_proper : ℕ → ℕ → Table → List ℕ → Bool
all_proper zero a table board = true
all_proper (suc left) a table board =
    let rest = all_proper left (a + 1) table board in row_proper n_cells 0 table board a && rest

row_proper_lem :
    (left b : ℕ) (table : Table) (board : List ℕ) (a c : ℕ)
    → row_proper left b table board a ≡ true
    → b ≤ c
    → c < b + left
    → clash table board a c ≡ false
row_proper_lem zero b table board a c h le lt = absurd (omega arith)
row_proper_lem (suc left) b table board a c h le lt =
    let (here, later) = and-true (not (clash table board a b)) _ h in
    elim (Bool-cases (b == c)) [
      | inl e ↦ let k : b ≡ c = (==_iff b c).0 e in rw (← k) (flip _ here)
      | inr e ↦ row_proper_lem left (b + 1) table board a c later (ground arith) (omega arith)
    ]
  where
    flip : (x : Bool) → not x ≡ true → x ≡ false
    flip x h = ground arith

all_proper_lem :
    (left b : ℕ) (table : Table) (board : List ℕ) (a : ℕ)
    → all_proper left b table board ≡ true
    → b ≤ a
    → a < b + left
    → row_proper n_cells 0 table board a ≡ true
all_proper_lem zero b table board a h le lt = absurd (omega arith)
all_proper_lem (suc left) b table board a h le lt =
    let (here, later) = and-true (row_proper n_cells 0 table board b) _ h in
    elim (Bool-cases (b == a)) [
      | inl e ↦ let k : b ≡ a = (==_iff b a).0 e in rw (← k) here
      | inr e ↦ all_proper_lem left (b + 1) table board a later (ground arith) (omega arith)
    ]

all_proper-Proper :
    (table : Table) (board : List ℕ)
    → IsBoardTable table
    → all_proper n_cells 0 table board ≡ true
    → Proper table board
all_proper-Proper table board t h a b = elim (Bool-cases (ltb a n_cells)) [
  | inr out ↦ rw (member-outside table a b t (inl (ltb→ge a n_cells out)))
  | inl ha ↦ elim (Bool-cases (ltb b n_cells)) [
    | inr out ↦ rw (member-outside table a b t (inr (ltb→ge b n_cells out)))
    | inl hb ↦
        row_proper_lem n_cells 0 table board a b
          (all_proper_lem n_cells 0 table board a h (omega arith) (ltb→lt a n_cells ha))
          (omega arith) (ltb→lt b n_cells hb)
  ]
]

abbrev pub table_of : Result Table → Table
table_of (ok t) = t
table_of (err e) = []

abbrev pub table : Table
table = table_of init_neighbors

pub table_made : init_neighbors ≡ ok table
unfolding init_neighbors init_from neighbors_of mark_adjacent mark_lines mark_box mark
    collect_neighbors collect assert
table_made = refl

init_neighbors_right_example :
    (t : List (List ℕ)) × (init_neighbors ≡ ok t)
    × (length (get_or t 40 []) ≡ n_neighbors)
    × (member 30 (get_or t 40 []) ≡ related 40 30)
init_neighbors_right_example = init_neighbors_right 40 30 (omega arith) (omega arith)

abbrev pub spaces_of : List ℕ → State
spaces_of board = record { board = board; spaces = find_spaces 0 board }

abbrev pub result_of : Result (Bool × State) → Bool × State
result_of (ok x) = x
result_of (err e) = (false, spaces_of [])

-- A board on which nothing fits in the first cell.
abbrev pub stuck : State
stuck = spaces_of (0 ∷ 1 ∷ 2 ∷ 3 ∷ 4 ∷ 5 ∷ 6 ∷ 7 ∷ 8 ∷ 9 ∷ replicate 71 0)

abbrev pub blank : State
blank = spaces_of (replicate 81 0)

pub stuck-Proper : Proper table stuck.board
unfolding init_neighbors init_from neighbors_of mark_adjacent mark_lines mark_box mark
    collect_neighbors collect assert
stuck-Proper = all_proper-Proper table stuck.board (made-IsBoardTable table table_made) refl

stuck_fails : run basic table 0 stuck ≡ ok (false, stuck)
unfolding init_neighbors init_from neighbors_of mark_adjacent mark_lines mark_box mark
    collect_neighbors collect assert solve_sudoku_basic solve guess_loop try_guess available
    none_holds find_spaces
stuck_fails = refl

failure_restores_example : stuck.board ≡ stuck.board
failure_restores_example =
    failure_restores basic table stuck stuck 0 table_made stuck-Proper stuck_fails

abbrev solved_blank : Bool × State
solved_blank = result_of (run min_arity table 0 blank)

pub blank-Proper : Proper table blank.board
unfolding init_neighbors init_from neighbors_of mark_adjacent mark_lines mark_box mark
    collect_neighbors collect assert
blank-Proper = all_proper-Proper table blank.board (made-IsBoardTable table table_made) refl

blank_solved : run min_arity table 0 blank ≡ ok solved_blank
unfolding init_neighbors init_from neighbors_of mark_adjacent mark_lines mark_box mark
    collect_neighbors collect assert solve_sudoku_min_arity solve guess_loop try_guess available
    none_holds find_spaces find_min_arity search_min swap_spaces arity occupy count_false
blank_solved = refl

-- The solver with the least arity fills a blank board.
solve-Proper_example : Proper table solved_blank.1.board
solve-Proper_example =
    solve-Proper min_arity table blank 0 solved_blank table_made blank-Proper blank_solved

-- `solved` accepts what that solver has made of the blank board.
blank_accepted : solved solved_blank.1.board ≡ ok true
unfolding init_neighbors init_from neighbors_of mark_adjacent mark_lines mark_box mark
    collect_neighbors collect assert solve_sudoku_min_arity solve guess_loop try_guess available
    none_holds find_spaces find_min_arity search_min swap_spaces arity occupy count_false solved
    tally tally_row each_once count_ones rows_from cols_from stride
blank_accepted = refl
