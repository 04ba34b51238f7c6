-- ===== src/Sudoku/Cache.antt =====
-- lab1/src/Sudoku/TearcherCode/sudoku_min_arity_cache.cc: the solver that remembers which digits the
-- neighbours of a cell hold, and how many are free.
use cloud_computing_lab.Base.{
  ℕ, zero, suc, ◌+◌, ◌-◌, Bool, true, false, not, List, [], ◌∷◌, Result, ok, ◌>>=◌, if◌then◌else◌,
  leb, ltb, ◌==◌, ℤ, pos, negsuc, decrement, increment, set, replicate, length,
}
use cloud_computing_lab.Sudoku.Neighbors.{num, n_cells, assert}
use cloud_computing_lab.Sudoku.Solver.{State, Table, at, put, swap_spaces, depth}
pub mod Flags
pub mod Marking
pub mod Held
pub mod Hold
pub mod Init
pub mod Choice
pub mod Guess
pub mod Refines

-- The arrays `occupied` and `arity`
pub record Marks : Type 0 where
  pub occupied : List (List Bool)
  pub arity : List ℤ

pub record Cache : Type 0 where
  pub state : State
  pub marks : Marks

-- `a < b` on integers
abbrev pub int_lt : ℤ → ℤ → Bool
int_lt (pos a) (pos b) = ltb a b
int_lt (pos a) (negsuc b) = false
int_lt (negsuc a) (pos b) = true
int_lt (negsuc a) (negsuc b) = ltb b a

-- `occupied[cell][val]`
unfoldable pub is_occupied : List (List Bool) → ℕ → ℕ → Result Bool
is_occupied occupied cell val = do row ← at occupied cell; at row val

-- `occupied[cell][val]=b;`
unfoldable pub set_occupied : List (List Bool) → ℕ → ℕ → Bool → Result (List (List Bool))
set_occupied occupied cell val b = do
  row ← at occupied cell
  old ← at row val
  ok (set occupied cell (set row val b))

-- The loop of `find_min_arity` from `sp` on, with so many rounds left.
unfoldable pub search_cached : ℕ → Cache → ℕ → ℕ → ℤ → Result ℕ
search_cached zero c sp min_space min_arity = ok min_space
search_cached (suc left) c sp min_space min_arity =
    if int_lt (pos 1) min_arity
    then (do
      cell ← at c.state.spaces sp
      cur_arity ← at c.marks.arity cell
      elim (int_lt cur_arity min_arity) [
        | true ↦ search_cached left c (sp + 1) sp cur_arity
        | false ↦ search_cached left c (sp + 1) min_space min_arity
      ])
    else ok min_space

unfoldable pub find_min_cached : Cache → ℕ → Result Cache
unfolding search_cached swap_spaces
find_min_cached c space = do
  cell ← at c.state.spaces space
  min_arity ← at c.marks.arity cell
  min_space ← search_cached (length c.state.spaces - (space + 1)) c (space + 1) space min_arity
  elim (space == min_space) [
    | true ↦ ok c
    | false ↦ do s ← swap_spaces c.state min_space space; ok (record c { state = s })
  ]

-- `occupied[neighbor][val]=true; --arity[neighbor];`
unfoldable pub mark_neighbor : ℕ → ℕ → Marks → Result Marks
unfolding set_occupied
mark_neighbor val neighbor m = do
  occupied ← set_occupied m.occupied neighbor val true
  a ← at m.arity neighbor
  ok (record { occupied = occupied; arity = set m.arity neighbor (decrement a) })

-- The loop over the neighbours that marks a digit, with the list of those that are changed; the
-- solver keeps that list, in `modified`.
unfoldable pub mark_neighbors : ℕ → List ℕ → Marks → Result (Marks × List ℕ)
unfolding is_occupied mark_neighbor
mark_neighbors val [] m = ok (m, [])
mark_neighbors val (neighbor ∷ rest) m = do
  taken ← is_occupied m.occupied neighbor val
  elim taken [
    | true ↦ mark_neighbors val rest m
    | false ↦ do
      m1 ← mark_neighbor val neighbor m
      (m2, modified) ← mark_neighbors val rest m1
      ok (m2, neighbor ∷ modified)
  ]

-- What `init_cache` does for a cell that holds a digit.
unfoldable pub init_value : Table → ℕ → ℕ → Marks → Result Marks
unfolding set_occupied mark_neighbors
init_value table cell val m = do
  own ← set_occupied m.occupied cell val true
  near ← at table cell
  (m1, modified) ← mark_neighbors val near (record { occupied = own; arity = m.arity })
  ok m1

-- The body of the loop of `init_cache`.
unfoldable pub init_cell : Table → List ℕ → ℕ → Marks → Result Marks
unfolding set_occupied init_value
init_cell table board cell m = do
  occupied ← set_occupied m.occupied cell 0 true
  val ← at board cell
  let zeroed : Marks = record { occupied = occupied; arity = m.arity }
  elim (ltb 0 val) [ true ↦ init_value table cell val zeroed | false ↦ ok zeroed ]

-- The loop over the cells, with so many left.
unfoldable pub init_cells : ℕ → Table → List ℕ → ℕ → Marks → Result Marks
unfolding init_cell
init_cells zero table board cell m = ok m
init_cells (suc left) table board cell m = do
  m1 ← init_cell table board cell m
  init_cells left table board (cell + 1) m1

abbrev pub no_marks : Marks
no_marks = record {
  occupied = replicate n_cells (replicate (num + 1) false);
  arity = replicate n_cells (pos num);
}

unfoldable pub init_cache : Table → State → Result Cache
unfolding init_cells
init_cache table s = do
  marks ← init_cells n_cells table s.board 0 no_marks
  ok (record { state = s; marks = marks })

-- `undo changes`
unfoldable pub undo_marks : ℕ → List ℕ → Marks → Result Marks
unfolding is_occupied set_occupied assert
undo_marks guess [] m = ok m
undo_marks guess (neighbor ∷ rest) m = do
  taken ← is_occupied m.occupied neighbor guess
  assert taken (do
    occupied ← set_occupied m.occupied neighbor guess false
    a ← at m.arity neighbor
    undo_marks guess rest
        (record { occupied = occupied; arity = set m.arity neighbor (increment a) }))

-- `hold` and `remember changes`
unfoldable pub hold : Table → ℕ → ℕ → Cache → Result (Cache × List ℕ)
unfolding set_occupied mark_neighbors
hold table cell guess c = do
  own ← set_occupied c.marks.occupied cell guess true
  near ← at table cell
  (marks, modified) ← mark_neighbors guess near (record { occupied = own; arity = c.marks.arity })
  ok (record { state = put c.state cell guess; marks = marks }, modified)

-- `unhold` and `undo changes`
unfoldable pub unhold : ℕ → ℕ → List ℕ → Cache → Result Cache
unfolding set_occupied undo_marks assert
unhold cell guess modified c = do
  own ← set_occupied c.marks.occupied cell guess false
  now ← at c.state.board cell
  assert (now == guess) (do
    marks ← undo_marks guess modified (record { occupied = own; arity = c.marks.arity })
    ok (record { state = put c.state cell 0; marks = marks }))

-- The recursive call with a guess held, and if it fails the guesses behind it.
unfoldable pub try_cached :
    Table
    → (Cache → Result (Bool × Cache))
    → (Cache → Result (Bool × Cache))
    → ℕ
    → ℕ
    → Cache
    → Result (Bool × Cache)
unfolding hold unhold assert
try_cached table again next cell guess c = do
  old ← at c.state.board cell
  assert (old == 0) (do
    (held, modified) ← hold table cell guess c
    (done, c1) ← again held
    elim done [ true ↦ ok (true, c1) | false ↦ do c2 ← unhold cell guess modified c1; next c2 ])

-- The loop over the guesses, with so many left.
unfoldable pub guess_cached :
    Table → (Cache → Result (Bool × Cache)) → ℕ → ℕ → ℕ → Cache → Result (Bool × Cache)
unfolding try_cached is_occupied
guess_cached table again cell zero guess c = ok (false, c)
guess_cached table again cell (suc left) guess c = do
  taken ← is_occupied c.marks.occupied cell guess
  elim taken [
    | true ↦ guess_cached table again cell left (guess + 1) c
    | false ↦ try_cached table again (guess_cached table again cell left (guess + 1)) cell guess c
  ]

-- The solver, with fuel for the depth of the recursion.
unfoldable pub solve_cached : Table → ℕ → ℕ → Cache → Result (Bool × Cache)
unfolding guess_cached find_min_cached
solve_cached table zero which_space c = ok (true, c)
solve_cached table (suc fuel) which_space c =
    if leb (length c.state.spaces) which_space then ok (true, c) else (do
      c1 ← find_min_cached c which_space
      cell ← at c1.state.spaces which_space
      guess_cached table (solve_cached table fuel (which_space + 1)) cell num 1 c1)

unfoldable pub solve_sudoku_min_arity_cache : Table → ℕ → Cache → Result (Bool × Cache)
unfolding solve_cached
solve_sudoku_min_arity_cache table which_space c =
    solve_cached table (depth c.state which_space) which_space c
