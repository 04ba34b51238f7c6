-- ===== src/Sudoku/Solutions.antt =====
-- What fills a board, and what `available` of sudoku_basic.cc says about it.
use cloud_computing_lab.Base.{
  ℕ, zero, suc, ◌<◌, ◌≤◌, ◌≢◌, ◌≡◌, refl, sym, ap, ◌∙◌, Bool, true, false, List, [], ◌∷◌, ok, arith,
  >>=-eq-ok, ◌==◌, ==_iff, ltb, get_or, set, length-set, Bool-cases, inl, inr, ok-injective,
  and-true,
}
use mathlib.Core.Bool.{false≢true}
use cloud_computing_lab.Sudoku.Neighbors.{n_cells, member}
use cloud_computing_lab.Sudoku.Table.{IsBoardTable, below}
use cloud_computing_lab.Sudoku.Solver.{Table, at, none_holds, available}
use cloud_computing_lab.Sudoku.Backtrack.{Proper, at-get_or, at-row}
use cloud_computing_lab.Sudoku.Spaces.{at-total, at-set_ne}
use cloud_computing_lab.Sudoku.Search.{IsBoard, at-IsRow}

-- A board without a clash and without an empty cell that has the digits of a given board.
pub record IsSolution (table : Table) (board solution : List ℕ) : Type 0 where
  pub proper : Proper table solution
  pub extends : (c v : ℕ) → at board c ≡ ok v → v ≢ 0 → at solution c ≡ ok v
  pub filled : (c : ℕ) → at board c ≡ ok 0 → (d : ℕ) × (at solution c ≡ ok d) × (1 ≤ d) × (d ≤ 9)

pub at-set_self : (xs : List ℕ) (i v w : ℕ) → at xs i ≡ ok w → at (set xs i v) i ≡ ok v
at-set_self [] i v w h = cc
at-set_self (x ∷ xs) zero v w h = refl
at-set_self (x ∷ xs) (suc i) v w h = at-set_self xs i v w h

-- What was on the board behind the write of a digit.
at-set :
    (xs : List ℕ) (i g w c v : ℕ)
    → at xs i ≡ ok w
    → at (set xs i g) c ≡ ok v
    → ((i == c) ≡ false → at xs c ≡ ok v) × ((i == c) ≡ true → v ≡ g)
at-set xs i g w c v hi h = (
  (λ ne. sym (at-set_ne xs i c g (ground arith)) ∙ h),
  λ e.
      let k : i ≡ c = (==_iff i c).0 e in
      ok-injective (sym h ∙ ap (at (set xs i g)) (sym k) ∙ at-set_self xs i g w hi),
)

pub set-IsBoard :
    (board : List ℕ) (cell g w : ℕ)
    → at board cell ≡ ok w
    → g ≤ 9
    → IsBoard board
    → IsBoard (set board cell g)
set-IsBoard board cell g w h le b = record {
  cells = length-set board cell g ∙ b.cells;
  values = λ c v e.
      let (other, here) = at-set board cell g w c v h e in
      elim (Bool-cases (cell == c)) [
        | inl same ↦ let k : v ≡ g = here same in omega (arith, k, le)
        | inr differ ↦ b.values c v (other differ)
      ];
}

none_holds-total :
    (board near : List ℕ) (guess : ℕ)
    → IsBoard board
    → below near ≡ true
    → (free : Bool) × (none_holds board guess near ≡ ok free)
unfolding none_holds
none_holds-total board [] guess b h = (true, refl)
none_holds-total board (n ∷ near) guess b h =
    let (here, later) = and-true (ltb n n_cells) (below near) h in
    let cells = b.cells in
    let (v, ev) = at-total board n (ground arith) in
    let (free, rest) = none_holds-total board near guess b later in
    elim (Bool-cases (v == guess)) [
      | inl hit ↦ (false, rw (ev, hit) refl)
      | inr miss ↦ (free, rw (ev, miss) rest)
    ]

none_holds-false :
    (board near : List ℕ) (guess : ℕ)
    → none_holds board guess near ≡ ok false
    → (n : ℕ) × (member n near ≡ true) × (at board n ≡ ok guess)
unfolding none_holds
none_holds-false board [] guess h = absurd (false≢true (sym (ok-injective h)))
none_holds-false board (n ∷ near) guess h =
    let (v, ev, later) = >>=-eq-ok (at board n) _ h in
    elim (Bool-cases (v == guess)) [
      | inl hit ↦ (n, ground arith, ev ∙ ap ok ((==_iff v guess).0 hit))
      | inr miss ↦
          let (m, inside, held) = none_holds-false board near guess (rw miss at later) in
          (m, ground (arith, inside), held)
    ]

pub available-total :
    (table : Table) (board : List ℕ) (guess cell : ℕ)
    → IsBoardTable table
    → IsBoard board
    → cell < n_cells
    → (free : Bool) × (available table board guess cell ≡ ok free)
unfolding available
available-total table board guess cell t b lt =
    let (near, found, row) = at-IsRow table cell t lt in
    let (free, e) = none_holds-total board near guess b row.inside in (free, rw found e)

-- A digit that is not available is in the cell in no solution.
pub not_available :
    (table : Table) (board solution : List ℕ) (guess cell : ℕ)
    → IsSolution table board solution
    → guess ≢ 0
    → available table board guess cell ≡ ok false
    → at solution cell ≢ ok guess
unfolding available
not_available table board solution guess cell sol positive taken there =
    let (near, found, scan) = >>=-eq-ok (at table cell) _ taken in
    let (n, inside, held) = none_holds-false board near guess scan in
    let in_solution = sol.extends n guess held positive in
    let apart = sol.proper cell n in
    let listed : member n (get_or table cell []) ≡ true =
      rw (at-row table cell near found) inside in
    let here : get_or solution cell 0 ≡ guess = (at-get_or solution cell guess 0 there).0 in
    let near_by : get_or solution n 0 ≡ guess = (at-get_or solution n guess 0 in_solution).0 in
    ground (arith, apart, listed, here, near_by, positive)

-- A solution with a digit of an empty cell on the board.
pub put-IsSolution :
    (table : Table) (board solution : List ℕ) (cell g : ℕ)
    → at board cell ≡ ok 0
    → IsSolution table board solution
    → at solution cell ≡ ok g
    → IsSolution table (set board cell g) solution
put-IsSolution table board solution cell g empty sol there = record {
  proper = sol.proper;
  extends = λ c v e nz.
      let (other, here) = at-set board cell g 0 c v empty e in
      elim (Bool-cases (cell == c)) [
        | inl same ↦
            ap (at solution) (sym ((==_iff cell c).0 same)) ∙ there ∙ ap ok (sym (here same))
        | inr differ ↦ sol.extends c v (other differ) nz
      ];
  filled = λ c e.
      let (other, here) = at-set board cell g 0 c 0 empty e in
      elim (Bool-cases (cell == c)) [
        | inl same ↦
            let (d, ed, low, high) = sol.filled cell empty in
            (d, ap (at solution) (sym ((==_iff cell c).0 same)) ∙ ed, low, high)
        | inr differ ↦ sol.filled c (other differ)
      ];
}

pub unput-IsSolution :
    (table : Table) (board solution : List ℕ) (cell g : ℕ)
    → at board cell ≡ ok 0
    → (1 ≤ g) × (g ≤ 9)
    → IsSolution table (set board cell g) solution
    → IsSolution table board solution
unput-IsSolution table board solution cell g empty (low, high) sol = record {
  proper = sol.proper;
  extends = λ c v e nz. elim (Bool-cases (cell == c)) [
    | inl same ↦
        let k : cell ≡ c = (==_iff cell c).0 same in
        absurd (nz (ok-injective (sym e ∙ ap (at board) (sym k) ∙ empty)))
    | inr differ ↦ sol.extends c v (at-set_ne board cell c g (ground arith) ∙ e) nz
  ];
  filled = λ c e. elim (Bool-cases (cell == c)) [
    | inl same ↦
        let k : cell ≡ c = (==_iff cell c).0 same in
        let there = sol.extends cell g (at-set_self board cell g 0 empty) (omega (arith, low)) in
        (g, ap (at solution) (sym k) ∙ there, low, high)
    | inr differ ↦ sol.filled c (at-set_ne board cell c g (ground arith) ∙ e)
  ];
}
