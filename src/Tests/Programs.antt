-- ===== src/Tests/Programs.antt =====
-- The loop of main.cc on a file of three lines, and `solved` on two full boards.
use cloud_computing_lab.Base.{
  ℕ, zero, suc, ◌+◌, ◌*◌, ◌/◌, ◌%◌, ◌<◌, ◌≤◌, ◌≡◌, ◌↔◌, refl, Bool, true, ◌&&◌, and-true, List, [],
  ◌∷◌, ok, arith, leb, length, All,
}
use cloud_computing_lab.Text.{Str}
use cloud_computing_lab.Sudoku.Solver.{State, at}
use cloud_computing_lab.Sudoku.Backtrack.{Proper}
use cloud_computing_lab.Sudoku.Solved.{solved}
use cloud_computing_lab.Sudoku.Tally.{IsFilled}
use cloud_computing_lab.Sudoku.Accepts.{solved_right}
use cloud_computing_lab.Sudoku.Program.{record_answer, by_cache, Score, main}
use cloud_computing_lab.Sudoku.Outcome.{
  PlayedAll, no_score, IsPlayable, IsScore, long_lines, main_decides,
}
use cloud_computing_lab.Tests.Puzzles.{table, table_made, stuck, blank, stuck-Proper, blank-Proper}
use cloud_computing_lab.Tests.Answers.{stuck_text, blank_text, stuck_read, blank_read}

abbrev all_digits : List ℕ → Bool
all_digits [] = true
all_digits (v ∷ board) = let rest = all_digits board in leb 1 v && (leb v 9 && rest)

all_digits_lem :
    (board : List ℕ) (c : ℕ)
    → all_digits board ≡ true
    → c < length board
    → (v : ℕ) × (at board c ≡ ok v) × (1 ≤ v) × (v ≤ 9)
all_digits_lem [] c h lt = absurd (omega arith)
all_digits_lem (v ∷ board) zero h lt = (v, refl, ground (arith, h), ground (arith, h))
all_digits_lem (v ∷ board) (suc c) h lt =
    let (here, more) = and-true (leb 1 v) _ h in
    let (high, later) = and-true (leb v 9) (all_digits board) more in
    all_digits_lem board c later (omega arith)

-- A full board without a clash, row by row.
abbrev full_board : ℕ → ℕ → List ℕ
full_board zero i = []
full_board (suc left) i = ((i / 9 * 3 + i / 27 + i % 9) % 9 + 1) ∷ full_board left (i + 1)

full-IsFilled : IsFilled (full_board 81 0)
full-IsFilled c lt = all_digits_lem (full_board 81 0) c refl lt

solved_right_example :
    (b : Bool) × (solved (full_board 81 0) ≡ ok b) × ((b ≡ true) ↔ Proper table (full_board 81 0))
solved_right_example = solved_right table (full_board 81 0) table_made full-IsFilled

-- A puzzle without a solution, a line that is too short, and a blank puzzle.
abbrev lines : List Str
lines = stuck_text ∷ [] ∷ blank_text ∷ []

lines-IsPlayable : All (IsPlayable table) lines
lines-IsPlayable = (
  λ long. (stuck, stuck_read, stuck-Proper),
  (λ long. absurd (omega arith), (λ long. (blank, blank_read, blank-Proper), tt)),
)

main_decides_example :
    (r : Score) × (main by_cache lines ≡ ok r)
    × PlayedAll by_cache table lines no_score r
    × (r.total ≡ long_lines lines)
    × IsScore table r
    × ((line : Str) (q q1 : Score) (s : State)
        → record_answer line q true s ≡ ok q1
        → solved s.board ≡ ok true)
main_decides_example = main_decides by_cache table lines table_made lines-IsPlayable
