-- ===== src/Sudoku/Solver.antt =====
-- lab1/src/Sudoku/TearcherCode/sudoku_basic.cc and sudoku_min_arity.cc.
use cloud_computing_lab.Base.{
  ℕ, zero, suc, ◌+◌, ◌-◌, Bool, true, false, ◌&&◌, List, [], ◌∷◌, Result, ok, ◌>>=◌, in_bounds,
  if◌then◌else◌, ltb, leb, ◌==◌, get_elem?, set, replicate, length,
}
use cloud_computing_lab.Text.{Str}
use cloud_computing_lab.Sudoku.Neighbors.{num, assert}

-- The global variables: `board`, `spaces` and `nspaces`, which is the length of the list here.
pub record State : Type 0 where
  pub board : List ℕ
  pub spaces : List ℕ

-- The table `neighbors`
abbrev pub Table : Type 0
Table = List (List ℕ)

-- `find_spaces` from a cell on
unfoldable pub find_spaces : ℕ → List ℕ → List ℕ
find_spaces cell [] = []
find_spaces cell (value ∷ board) =
    let rest = find_spaces (cell + 1) board in if value == 0 then cell ∷ rest else rest

-- The loop of `input` over the characters of `in`.
unfoldable pub read_cells : Str → Result (List ℕ)
unfolding assert
read_cells [] = ok []
read_cells (c ∷ text) =
    assert (leb b'0' c && leb (c - b'0') num) (do rest ← read_cells text; ok ((c - b'0') ∷ rest))

unfoldable pub input : Str → Result State
unfolding find_spaces read_cells
input text = do board ← read_cells text; ok (record { board = board; spaces = find_spaces 0 board })

abbrev pub at {ℓ} : {A : Type ℓ} → List A → ℕ → Result A
at v i = in_bounds (get_elem? v i)

-- The loop of `available` over the neighbours of a cell.
unfoldable pub none_holds : List ℕ → ℕ → List ℕ → Result Bool
none_holds board guess [] = ok true
none_holds board guess (neighbor ∷ rest) = do
  value ← at board neighbor
  let later = none_holds board guess rest
  if value == guess then ok false else later

unfoldable pub available : Table → List ℕ → ℕ → ℕ → Result Bool
unfolding none_holds
available table board guess cell = do near ← at table cell; none_holds board guess near

-- `occupied[board[neighbor]]=true;` over the neighbours
unfoldable pub occupy : List ℕ → List ℕ → List Bool → Result (List Bool)
occupy board [] occupied = ok occupied
occupy board (neighbor ∷ rest) occupied = do
  value ← at board neighbor
  seen ← at occupied value
  occupy board rest (set occupied value true)

-- `std::count(..., false)`
unfoldable pub count_false : List Bool → ℕ
count_false [] = 0
count_false (b ∷ bs) = let n = count_false bs in if b then n else n + 1

-- How many of the digits 1 to 9 no neighbour holds.
unfoldable pub arity : Table → List ℕ → ℕ → Result ℕ
unfolding occupy count_false
arity table board cell = do
  near ← at table cell
  occupied ← occupy board near (replicate 10 false)
  elim occupied [ [] ↦ ok 0 | first ∷ digits ↦ ok (count_false digits) ]

-- The loop of `find_min_arity` from `sp` on, with so many rounds left: the best space so far and
-- its arity.
unfoldable pub search_min : ℕ → Table → State → ℕ → ℕ → ℕ → Result ℕ
unfolding arity
search_min zero table s sp min_space min_arity = ok min_space
search_min (suc left) table s sp min_space min_arity =
    if ltb 1 min_arity
    then (do
      cell ← at s.spaces sp
      cur_arity ← arity table s.board cell
      elim (ltb cur_arity min_arity) [
        | true ↦ search_min left table s (sp + 1) sp cur_arity
        | false ↦ search_min left table s (sp + 1) min_space min_arity
      ])
    else ok min_space

-- `std::swap(spaces[min_space], spaces[space])`
unfoldable pub swap_spaces : State → ℕ → ℕ → Result State
swap_spaces s i j = do
  a ← at s.spaces i
  b ← at s.spaces j
  ok (record s { spaces = set (set s.spaces i b) j a })

unfoldable pub find_min_arity : Table → State → ℕ → Result State
unfolding search_min swap_spaces
find_min_arity table s space = do
  cell ← at s.spaces space
  min_arity ← arity table s.board cell
  min_space ← search_min (length s.spaces - (space + 1)) table s (space + 1) space min_arity
  if space == min_space then ok s else swap_spaces s min_space space

-- What is done with the space before it is filled: nothing, or `find_min_arity`.
abbrev pub Choose : Type 0
Choose = State → ℕ → Result State

-- `board[cell]=guess;`
abbrev pub put : State → ℕ → ℕ → State
put s cell guess = record s { board = set s.board cell guess }

-- The recursive call with a guess on the board, and if it fails `unhold` and the guesses behind it.
unfoldable pub try_guess :
    (State → Result (Bool × State))
    → (State → Result (Bool × State))
    → ℕ
    → ℕ
    → State
    → Result (Bool × State)
unfolding assert
try_guess again next cell guess s = do
  old ← at s.board cell
  assert (old == 0) (do
    (done, s1) ← again (put s cell guess)
    elim done [
      | true ↦ ok (true, s1)
      | false ↦ do now ← at s1.board cell; assert (now == guess) (next (put s1 cell 0))
    ])

-- The loop over the guesses, with so many left.
unfoldable pub guess_loop :
    Table → (State → Result (Bool × State)) → ℕ → ℕ → ℕ → State → Result (Bool × State)
unfolding try_guess
guess_loop table again cell zero guess s = ok (false, s)
guess_loop table again cell (suc left) guess s = do
  free ← available table s.board guess cell
  elim free [
    | true ↦ try_guess again (guess_loop table again cell left (guess + 1)) cell guess s
    | false ↦ guess_loop table again cell left (guess + 1) s
  ]

-- Both solvers, with fuel for the depth of the recursion; without fuel there is no space left to
-- ask for.
unfoldable pub solve : Table → Choose → ℕ → ℕ → State → Result (Bool × State)
unfolding guess_loop
solve table choose zero which_space s = ok (true, s)
solve table choose (suc fuel) which_space s =
    if leb (length s.spaces) which_space then ok (true, s) else (do
      s1 ← choose s which_space
      cell ← at s1.spaces which_space
      guess_loop table (solve table choose fuel (which_space + 1)) cell num 1 s1)

-- `nspaces - which_space` calls are enough.
abbrev pub depth : State → ℕ → ℕ
depth s which_space = length s.spaces - which_space

abbrev pub choose_none : Choose
choose_none s which_space = ok s

-- `solve_sudoku_basic`
unfoldable pub solve_sudoku_basic : Table → ℕ → State → Result (Bool × State)
unfolding solve
solve_sudoku_basic table which_space s = solve table choose_none (depth s which_space) which_space s

-- `solve_sudoku_min_arity`
unfoldable pub solve_sudoku_min_arity : Table → ℕ → State → Result (Bool × State)
unfolding solve find_min_arity
solve_sudoku_min_arity table which_space s =
    solve table (find_min_arity table) (depth s which_space) which_space s
