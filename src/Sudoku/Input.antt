-- ===== src/Sudoku/Input.antt =====
-- What `input` of sudoku_basic.cc makes of a puzzle: the cells, and the list of the empty ones.
use cloud_computing_lab.Base.{
  subst, sym, ℕ, zero, suc, ◌+◌, ◌-◌, ◌<◌, ◌≤◌, ◌≡◌, refl, ap, ◌∙◌, Bool, true, false, ◌&&◌, List,
  [], ◌∷◌, ok, Result, >>=-eq-ok, arith, leb, leb→le, length, ok-injective, and-true,
}
use cloud_computing_lab.Text.{Str}
use cloud_computing_lab.Sudoku.Neighbors.{n_cells, num, assert}
use cloud_computing_lab.Sudoku.Solver.{State, Table, at, find_spaces, read_cells, input}
use cloud_computing_lab.Sudoku.Backtrack.{Proper}
use cloud_computing_lab.Sudoku.Spaces.{count, empty_here}
use cloud_computing_lab.Sudoku.Ready.{IsReady}

spaces_before :
    (cell : ℕ) (board : List ℕ) (c : ℕ) → c < cell → count c (find_spaces cell board) ≡ 0
unfolding find_spaces
spaces_before cell [] c lt = refl
spaces_before cell (value ∷ board) c lt = ground (arith, spaces_before (cell + 1) board c)

find_spaces_lem :
    (cell : ℕ) (board : List ℕ) (c : ℕ)
    → count (cell + c) (find_spaces cell board) ≡ empty_here board c
unfolding find_spaces
find_spaces_lem cell [] c = refl
find_spaces_lem cell (value ∷ board) zero =
    ground (arith, spaces_before (cell + 1) board (cell + 0))
find_spaces_lem cell (value ∷ board) (suc c) =
    let e : cell + suc c ≡ (cell + 1) + c = omega arith in
    rw e (ground (arith, find_spaces_lem (cell + 1) board c))

assert_ok :
    {A : Type 0} (b : Bool) (rest : Result A) (a : A)
    → assert b rest ≡ ok a
    → (b ≡ true) × (rest ≡ ok a)
unfolding assert
assert_ok true rest a h = (refl, h)
assert_ok false rest a h = cc

abbrev IsRead : ℕ → List ℕ → Type 0
IsRead n board = (length board ≡ n) × ((c v : ℕ) → at board c ≡ ok v → v ≤ 9)

cell_small :
    (x : ℕ) (board : List ℕ)
    → x ≤ 9
    → ((c v : ℕ) → at board c ≡ ok v → v ≤ 9)
    → (c v : ℕ) → at (x ∷ board) c ≡ ok v
    → v ≤ 9
cell_small x board le small zero v e = subst (λ y. y ≤ 9) (ok-injective e) le
cell_small x board le small (suc c) v e = small c v e

read_cells_lem :
    (text : Str) (board : List ℕ) → read_cells text ≡ ok board → IsRead (length text) board
unfolding read_cells
read_cells_lem [] board h = subst (IsRead 0) (ok-injective h) (refl, λ c v e. cc)
read_cells_lem (x ∷ text) board h =
    let (digit, read) = assert_ok (leb b'0' x && leb (x - b'0') num) _ board h in
    let (rest, behind, made) = >>=-eq-ok (read_cells text) _ read in
    let (number, small) = read_cells_lem text rest behind in
    let value_small = leb→le (x - b'0') num (and-true (leb b'0' x) (leb (x - b'0') num) digit).1 in
    subst (IsRead (suc (length text))) (ok-injective made)
      (ap suc number, cell_small (x - b'0') rest value_small small)

pub input-IsReady :
    (table : Table) (text : Str) (s : State)
    → length text ≡ n_cells
    → input text ≡ ok s
    → Proper table s.board
    → IsReady table 0 s
unfolding input
input-IsReady table text s l h proper =
    let (board, cells, made) = >>=-eq-ok (read_cells text) _ h in
    let state = ok-injective made in
    let (number, small) = read_cells_lem text board cells in
    subst (IsReady table 0) state (record {
      board = record { cells = number ∙ l; values = small };
      proper = subst (λ (x : State). Proper table x.board) (sym state) proper;
      covers = λ c. let e : 0 + c ≡ c = omega arith in rw e at (find_spaces_lem 0 board c);
    })
