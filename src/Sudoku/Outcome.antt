-- ===== src/Sudoku/Outcome.antt =====
-- The puzzles of a file in the loop of lab1/src/Sudoku/TearcherCode/main.cc.
use cloud_computing_lab.Base.{
  ◌<◌, ℕ, zero, suc, ◌+◌, ◌≤◌, ◌≡◌, ◌≢◌, refl, sym, ap, subst, ◌∙◌, Bool, true, false, List, [],
  ◌∷◌, ◌++◌, ok, arith, >>=-eq-ok, All, All-join, leb, leb→le, length, length-append, Bool-cases,
  inl, inr, ok-injective, ◌==◌, ==_iff,
}
use cloud_computing_lab.Text.{Str}
use cloud_computing_lab.Sudoku.Neighbors.{n_cells, assert, init_neighbors}
use cloud_computing_lab.Sudoku.Solver.{State, Table, input, solve_sudoku_min_arity}
use cloud_computing_lab.Sudoku.Backtrack.{Proper, basic, min_arity}
use cloud_computing_lab.Sudoku.Spaces.{at-total}
use cloud_computing_lab.Sudoku.Search.{IsBoard}
use cloud_computing_lab.Sudoku.Solutions.{IsSolution}
use cloud_computing_lab.Sudoku.Ready.{NoSolution}
use cloud_computing_lab.Sudoku.Input.{input-IsReady}
use cloud_computing_lab.Sudoku.Cache.{Cache, init_cache, init_cells, no_marks}
use cloud_computing_lab.Sudoku.Solved.{solved}
use cloud_computing_lab.Sudoku.Tally.{IsFilled}
use cloud_computing_lab.Sudoku.Accepts.{solved_right}
use cloud_computing_lab.Sudoku.Answers.{IsAnswer, solvers_decide, cached_refines}
use cloud_computing_lab.Sudoku.Program.{
  Method, by_basic, by_min_arity, by_cache, solve_by, Score, take, record_answer, play, play_all,
  main,
}

-- A line that is long enough starts with a puzzle that `input` reads, in which no cell holds the digit
-- of one of its neighbours.
abbrev pub IsPlayable : Table → Str → Type 0
IsPlayable table line =
    n_cells ≤ length line → (s : State) × (input (take n_cells line) ≡ ok s) × Proper table s.board

-- No board solves the puzzle.
abbrev pub Hopeless : Table → Str → Type 0
Hopeless table line = (s : State) → input (take n_cells line) ≡ ok s → NoSolution table s.board

-- Every puzzle is solved or is printed, and those that are printed have no solution.
pub record IsScore (table : Table) (r : Score) : Type 0 where
  pub adds_up : r.total_solved + length r.unsolved ≡ r.total
  pub hopeless : All (Hopeless table) r.unsolved

-- What a line does to the score: it counts as solved, and then the solver has found a solution which
-- `solved` accepts, or it is printed, and then it has no solution.
pub data Played (method : Method) (table : Table) (line : Str) (r r1 : Score) : Type 0 where
  solves :
      (s : State) (c : Cache) (s1 : State)
      → input (take n_cells line) ≡ ok s
      → init_cache table s ≡ ok c
      → solve_by method table c ≡ ok (true, s1)
      → IsSolution table s.board s1.board
      → solved s1.board ≡ ok true
      → r1 ≡ record r { total = r.total + 1; total_solved = r.total_solved + 1 }
      → Played method table line r r1
  fails :
      Hopeless table line
      → r1 ≡ record r { total = r.total + 1; unsolved = r.unsolved ++ line ∷ [] }
      → Played method table line r r1

-- The lines one after the other; those that are too short leave the score as it is.
pub data PlayedAll (method : Method) (table : Table) : List Str → Score → Score → Type 0 where
  over : {r : Score} → PlayedAll method table [] r r
  short :
      {line : Str} {lines : List Str} {r r1 : Score}
      → length line < n_cells
      → PlayedAll method table lines r r1
      → PlayedAll method table (line ∷ lines) r r1
  long :
      {line : Str} {lines : List Str} {r r1 r2 : Score}
      → n_cells ≤ length line
      → Played method table line r r1
      → PlayedAll method table lines r1 r2
      → PlayedAll method table (line ∷ lines) r r2

-- How many lines are long enough.
abbrev pub long_lines : List Str → ℕ
long_lines [] = 0
long_lines (line ∷ lines) =
    let rest = long_lines lines in
    elim (leb n_cells (length line)) [ true ↦ rest + 1 | false ↦ rest ]

length-take : (n : ℕ) (text : Str) → n ≤ length text → length (take n text) ≡ n
length-take zero text h = refl
length-take (suc n) [] h = absurd (omega arith)
length-take (suc n) (c ∷ text) h = ap suc (length-take n text (omega arith))

init_cache_state : (table : Table) (s : State) (c : Cache) → init_cache table s ≡ ok c → c.state ≡ s
unfolding init_cache
init_cache_state table s c h =
    let (marks, made, e) = >>=-eq-ok (init_cells n_cells table s.board 0 no_marks) _ h in
    sym (ap (λ (x : Cache). x.state) (ok-injective e))

-- A solution is a filled board, so `solved` accepts it.
solution-IsFilled :
    (table : Table) (board solution : List ℕ)
    → IsBoard board
    → IsSolution table board solution
    → IsFilled solution
solution-IsFilled table board solution b sol c lt =
    let cells = b.cells in
    let (v, ev) = at-total board c (omega (arith, lt, cells)) in
    let high = b.values c v ev in
    elim (Bool-cases (v == 0)) [
      | inl empty ↦ sol.filled c (ev ∙ ap ok ((==_iff v 0).0 empty))
      | inr given ↦
          let nz : v ≢ 0 = ground (arith, given) in
          (v, sol.extends c v ev nz, omega (arith, nz), high)
    ]

solution_accepted :
    (table : Table) (board solution : List ℕ)
    → init_neighbors ≡ ok table
    → IsBoard board
    → IsSolution table board solution
    → solved solution ≡ ok true
solution_accepted table board solution made b sol =
    let (right, ran, means) =
      solved_right table solution made (solution-IsFilled table board solution b sol) in
    ran ∙ ap ok (means.1 sol.proper)

-- What `solve(0)` gives in the loop.
answer_by :
    (method : Method) (table : Table) (text : Str) (s : State)
    → init_neighbors ≡ ok table
    → length text ≡ n_cells
    → input text ≡ ok s
    → Proper table s.board
    → (c : Cache) × (x : Bool × State) × (init_cache table s ≡ ok c)
      × (solve_by method table c ≡ ok x)
      × IsAnswer table s x
unfolding solve_by
answer_by method table text s made l read proper =
    let (c, x, m, began, counted, cached, restored) =
      cached_refines table text s made l read proper in
    let (y, ran, answer) = solvers_decide min_arity table text s made l read proper in
    let same : y ≡ x = ok-injective (sym ran ∙ counted) in
    let right : IsAnswer table s x = subst (IsAnswer table s) same answer in
    let state = init_cache_state table s c began in
    by method c x began state counted (rw cached refl) right
  where
    by :
        (method : Method) (c : Cache) (x : Bool × State)
        → init_cache table s ≡ ok c
        → c.state ≡ s
        → solve_sudoku_min_arity table 0 s ≡ ok x
        → solve_by by_cache table c ≡ ok x
        → IsAnswer table s x
        → (c : Cache) × (x : Bool × State) × (init_cache table s ≡ ok c)
          × (solve_by method table c ≡ ok x)
          × IsAnswer table s x
    by by_basic c x began state counted cached right =
        let (z, found, answer) = solvers_decide basic table text s made l read proper in
        (c, z, began, rw state found, answer)
    by by_min_arity c x began state counted cached right = (c, x, began, rw state counted, right)
    by by_cache c x began state counted cached right = (c, x, began, cached, right)

record_answer_lem :
    (method : Method) (table : Table) (line : Str) (r : Score) (s : State) (c : Cache)
    (x : Bool × State)
    → init_neighbors ≡ ok table
    → IsBoard s.board
    → input (take n_cells line) ≡ ok s
    → init_cache table s ≡ ok c
    → solve_by method table c ≡ ok x
    → IsAnswer table s x
    → (r1 : Score) × (record_answer line (record r { total = r.total + 1 }) x.0 x.1 ≡ ok r1)
      × Played method table line r r1
unfolding record_answer assert
record_answer_lem method table line r s c (true, s1) made b read began ran a =
    let accepted = solution_accepted table s.board s1.board made b (a.found refl) in
    (
      record r { total = r.total + 1; total_solved = r.total_solved + 1 },
      rw accepted refl,
      solves s c s1 read began ran (a.found refl) accepted refl,
    )
record_answer_lem method table line r s c (false, s1) made b read began ran a = (
  record r { total = r.total + 1; unsolved = r.unsolved ++ line ∷ [] },
  refl,
  fails
      (λ s' e.
        subst (λ (z : State). NoSolution table z.board) (ok-injective (sym read ∙ e))
          (a.none_exists refl))
      refl,
)

play_lem :
    (method : Method) (table : Table) (line : Str) (r : Score)
    → init_neighbors ≡ ok table
    → n_cells ≤ length line
    → IsPlayable table line
    → (r1 : Score) × (play method table line r ≡ ok r1) × Played method table line r r1
unfolding play
play_lem method table line r made enough playable =
    let (s, read, proper) = playable enough in
    let l = length-take n_cells line enough in
    let (c, x, began, ran, answer) =
      answer_by method table (take n_cells line) s made l read proper in
    let b = (input-IsReady table (take n_cells line) s l read proper).board in
    let (r1, ended, played) =
      record_answer_lem method table line r s c x made b read began ran answer in
    (r1, rw read (rw began (rw ran ended)), played)

not_leb : (a b : ℕ) → leb a b ≡ false → b < a
not_leb a b h = ground arith

leb_of : (a b : ℕ) → a ≤ b → leb a b ≡ true
leb_of a b h = ground arith

leb_not : (a b : ℕ) → b < a → leb a b ≡ false
leb_not a b h = ground arith

play_all_lem :
    (method : Method) (table : Table) (lines : List Str) (r : Score)
    → init_neighbors ≡ ok table
    → All (IsPlayable table) lines
    → (r1 : Score) × (play_all method table lines r ≡ ok r1) × PlayedAll method table lines r r1
unfolding play_all
play_all_lem method table [] r made h = (r, refl, over)
play_all_lem method table (line ∷ lines) r made (playable, more) =
    elim (Bool-cases (leb n_cells (length line))) [
      | inl enough ↦
          let le = leb→le n_cells (length line) enough in
          let (r1, ran, one) = play_lem method table line r made le playable in
          let (r2, rest, others) = play_all_lem method table lines r1 made more in
          (r2, rw (enough, play_all) (rw ran rest), long le one others)
      | inr few ↦
          let (r2, rest, others) = play_all_lem method table lines r made more in
          (r2, rw (few, play_all) rest, short (not_leb n_cells (length line) few) others)
    ]

-- What the lines do to the score adds up.
Played-IsScore :
    (method : Method) (table : Table) (line : Str) (r r1 : Score)
    → Played method table line r r1
    → IsScore table r
    → IsScore table r1 × (r1.total ≡ r.total + 1)
Played-IsScore method table line r r1 (solves s c s1 read began ran sol accepted e) k =
    let sums = k.adds_up in
    subst (λ (z : Score). IsScore table z × (z.total ≡ r.total + 1)) (sym e)
      (record { adds_up = omega (arith, sums); hopeless = k.hopeless }, refl)
Played-IsScore method table line r r1 (fails none e) k =
    let sums = k.adds_up in
    let more = length-append r.unsolved (line ∷ []) in
    subst (λ (z : Score). IsScore table z × (z.total ≡ r.total + 1)) (sym e)
      (
        record {
          adds_up = omega (arith, sums, more);
          hopeless = All-join (Hopeless table) r.unsolved (line ∷ []) k.hopeless (none, tt);
        },
        refl,
      )

PlayedAll-IsScore :
    (method : Method) (table : Table) (lines : List Str) (r r1 : Score)
    → PlayedAll method table lines r r1
    → IsScore table r
    → IsScore table r1 × (r1.total ≡ r.total + long_lines lines)
PlayedAll-IsScore method table [] r r1 over k = (k, omega arith)
PlayedAll-IsScore method table (line ∷ lines) r r2 (short few others) k =
    let (k2, total) = PlayedAll-IsScore method table lines r r2 others k in
    let no : leb n_cells (length line) ≡ false = leb_not n_cells (length line) few in
    (k2, rw (no, long_lines) total)
PlayedAll-IsScore method table (line ∷ lines) r r2 (long {r1 = r1} enough one others) k =
    let (k1, more) = Played-IsScore method table line r r1 one k in
    let (k2, total) = PlayedAll-IsScore method table lines r1 r2 others k1 in
    let enough' : leb n_cells (length line) ≡ true = leb_of n_cells (length line) enough in
    (k2, rw (enough', long_lines) (omega (arith, more, total)))

-- Whatever board a solver gives back, it is not counted unless `solved` accepts it.
counted_accepted :
    (line : Str) (r r1 : Score) (s : State)
    → record_answer line r true s ≡ ok r1
    → solved s.board ≡ ok true
unfolding record_answer assert
counted_accepted line r r1 s h =
    let (right, ran, checked) = >>=-eq-ok (solved s.board) _ h in
    elim (Bool-cases right) [
      | inl accepted ↦ ran ∙ ap ok accepted
      | inr refused ↦ let k = rw refused at checked in cc
    ]

abbrev pub no_score : Score
no_score = record { total = 0; total_solved = 0; unsolved = [] }

-- With the table that init_neighbors makes, one of the three back-tracking solvers, and lines of which
-- each with N characters or more starts with a puzzle that `input` reads and in which no cell holds
-- the digit of one of its neighbours: main ends without a failed assertion. Line by line, in order,
-- a line that is long enough either adds one to `total` and `total_solved`, and then the solver has
-- returned true with a board that is a solution and that `solved` accepts, or it adds one to `total`
-- and is printed, and then its puzzle has no solution; `total` is the number of these lines. And
-- whatever board an answer comes with, it is counted as solved only if `solved` accepts the board.
pub main_decides :
    (method : Method) (table : Table) (lines : List Str)
    → init_neighbors ≡ ok table
    → All (IsPlayable table) lines
    → (r : Score) × (main method lines ≡ ok r)
      × PlayedAll method table lines no_score r
      × (r.total ≡ long_lines lines)
      × IsScore table r
      × ((line : Str) (q q1 : Score) (s : State)
          → record_answer line q true s ≡ ok q1
          → solved s.board ≡ ok true)
unfolding main
main_decides method table lines made h =
    let (r, ran, played) = play_all_lem method table lines no_score made h in
    let (k, total) =
      PlayedAll-IsScore method table lines no_score r played
        (record { adds_up = refl; hopeless = tt }) in
    (r, rw made ran, played, omega (arith, total), k, counted_accepted)
