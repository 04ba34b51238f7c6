-- ===== src/Sudoku/Ready.antt =====
-- What holds before and behind a guess of sudoku_basic.cc and sudoku_min_arity.cc.
use cloud_computing_lab.Base.{
  subst, ℕ, suc, ◌+◌, ◌<◌, ◌≢◌, ◌≡◌, refl, sym, ap, ◌∙◌, Bool, true, false, List, Result, ok, arith,
  if◌then◌else◌, ◌==◌, ==_iff, get_or, set, length, drop, Bool-cases, inl, inr, get_or-set_ne,
  get_or-set_self,
}
use cloud_computing_lab.Sudoku.Neighbors.{n_cells, assert}
use cloud_computing_lab.Sudoku.Solver.{State, Table, at, put, try_guess}
use cloud_computing_lab.Sudoku.Backtrack.{Proper, at-get_or, set_back}
use cloud_computing_lab.Sudoku.Spaces.{empty_here, Covers, drop-at, count, at-empty}
use cloud_computing_lab.Sudoku.Search.{IsBoard}
use cloud_computing_lab.Sudoku.Solutions.{IsSolution}

-- A board without a clash whose empty cells are the spaces from `k` on.
pub record IsReady (table : Table) (k : ℕ) (s : State) : Type 0 where
  pub board : IsBoard s.board
  pub proper : Proper table s.board
  pub covers : Covers k s.spaces s.board

-- What a solver that started with the spaces from `k` on gives back.
pub record IsDecided (table : Table) (k : ℕ) (s : State) (x : Bool × State) : Type 0 where
  pub found : x.0 ≡ true → IsSolution table s.board x.1.board
  pub same_board : x.0 ≡ false → x.1.board ≡ s.board
  pub same_spaces :
      x.0 ≡ false → Covers k x.1.spaces s.board × (length x.1.spaces ≡ length s.spaces)
  pub same_before : x.0 ≡ false → (i : ℕ) → i < k → at x.1.spaces i ≡ at s.spaces i

-- The empty cells, before and behind a guess.
empty_step :
    (board : List ℕ) (cell g c : ℕ)
    → at board cell ≡ ok 0
    → g ≢ 0
    → empty_here board c ≡ (if cell == c then 1 else 0) + empty_here (set board cell g) c
empty_step board cell g c h nz =
    let inside = (at-get_or board cell 0 0 h).1 in
    elim (Bool-cases (cell == c)) [
      | inl same ↦
          let k : cell ≡ c = (==_iff cell c).0 same in
          let e : get_or (set board cell g) c 1 ≡ g =
            rw (← k) (get_or-set_self board cell g 1 inside) in
          let z : get_or board c 1 ≡ 0 = rw (← k) ((at-get_or board cell 0 1 h).0) in
          ground (arith, same, e, z, nz)
      | inr differ ↦
          let e : get_or (set board cell g) c 1 ≡ get_or board c 1 =
            get_or-set_ne board cell c g 1 (ground (arith, differ)) in
          ground (arith, differ, e)
    ]

-- The spaces behind the one that is filled.
pub spaces_step :
    (spaces : List ℕ) (k cell c : ℕ)
    → at spaces k ≡ ok cell
    → count c (drop k spaces) ≡ (if cell == c then 1 else 0) + count c (drop (k + 1) spaces)
spaces_step spaces k cell c h =
    let e : k + 1 ≡ suc k = omega arith in rw e (ap (count c) (drop-at spaces k cell h))

abbrev pub NoSolution : Table → List ℕ → Type 0
NoSolution table board = (solution : List ℕ) → ¬ IsSolution table board solution

-- The same, seen from a state with the same board and the same spaces before `k`.
pub carry :
    (table : Table) (k : ℕ) (s s2 : State) (x : Bool × State)
    → s2.board ≡ s.board
    → length s2.spaces ≡ length s.spaces
    → ((i : ℕ) → i < k → at s2.spaces i ≡ at s.spaces i)
    → IsDecided table k s2 x
    → IsDecided table k s x
carry table k s s2 x eb el before d = record {
  found = λ e. subst (λ b. IsSolution table b x.1.board) eb (d.found e);
  same_board = λ e. d.same_board e ∙ eb;
  same_spaces = λ e.
      let (covers, same) = d.same_spaces e in (subst (Covers k x.1.spaces) eb covers, same ∙ el);
  same_before = λ e i lt. d.same_before e i lt ∙ before i lt;
}

pub IsReady-on :
    (table : Table) (k : ℕ) (s s2 : State)
    → s2.board ≡ s.board
    → Covers k s2.spaces s.board
    → IsReady table k s
    → IsReady table k s2
IsReady-on table k s s2 eb covers r = record {
  board = subst IsBoard (sym eb) r.board;
  proper = subst (Proper table) (sym eb) r.proper;
  covers = subst (Covers k s2.spaces) (sym eb) covers;
}

-- The next space is an empty cell.
pub next_empty :
    (table : Table) (k : ℕ) (s : State) (cell : ℕ)
    → IsReady table k s
    → at s.spaces k ≡ ok cell
    → (at s.board cell ≡ ok 0) × (cell < n_cells)
next_empty table k s cell r h =
    let one = r.covers cell in
    let first = spaces_step s.spaces k cell cell h in
    let empty = at-empty s.board cell (ground (arith, one, first)) in
    let cells = r.board.cells in
    let inside = (at-get_or s.board cell 0 0 empty).1 in (empty, omega (arith, cells, inside))

pub Covers-put :
    (spaces board : List ℕ) (k cell g : ℕ)
    → at spaces k ≡ ok cell
    → at board cell ≡ ok 0
    → g ≢ 0
    → Covers k spaces board
    → Covers (k + 1) spaces (set board cell g)
Covers-put spaces board k cell g h empty nz covers c =
    omega (arith, covers c, spaces_step spaces k cell c h, empty_step board cell g c empty nz)

pub Covers-back :
    (spaces board : List ℕ) (k cell g : ℕ)
    → at spaces k ≡ ok cell
    → at board cell ≡ ok 0
    → g ≢ 0
    → Covers (k + 1) spaces (set board cell g)
    → Covers k spaces board
Covers-back spaces board k cell g h empty nz covers c =
    omega (arith, covers c, spaces_step spaces k cell c h, empty_step board cell g c empty nz)

-- The state behind a guess that failed, taken back.
pub record IsBack (k cell : ℕ) (s s2 : State) : Type 0 where
  pub board : s2.board ≡ s.board
  pub number : length s2.spaces ≡ length s.spaces
  pub before : (i : ℕ) → i < k → at s2.spaces i ≡ at s.spaces i
  pub next : at s2.spaces k ≡ ok cell
  pub covers : Covers k s2.spaces s.board

pub taken-IsBack :
    (table : Table) (k cell g : ℕ) (s s1 : State)
    → at s.spaces k ≡ ok cell
    → at s.board cell ≡ ok 0
    → g ≢ 0
    → IsDecided table (k + 1) (put s cell g) (false, s1)
    → IsBack k cell s (put s1 cell 0)
taken-IsBack table k cell g s s1 h empty nz d =
    let (covers, number) = d.same_spaces refl in
    let next = d.same_before refl k (omega arith) ∙ h in
    record {
      board = ap (λ b. set b cell 0) (d.same_board refl) ∙ set_back s.board cell g 0 empty;
      number = number;
      before = λ i lt. d.same_before refl i (omega arith);
      next = next;
      covers = Covers-back s1.spaces s.board k cell g next empty nz covers;
    }

pub try_found :
    (again next : State → Result (Bool × State)) (cell g : ℕ) (s s1 : State)
    → at s.board cell ≡ ok 0
    → again (put s cell g) ≡ ok (true, s1)
    → try_guess again next cell g s ≡ ok (true, s1)
unfolding try_guess assert
try_found again next cell g s s1 empty e = rw (empty, e)

pub try_failed :
    (again next : State → Result (Bool × State)) (cell g : ℕ) (s s1 : State)
    → at s.board cell ≡ ok 0
    → again (put s cell g) ≡ ok (false, s1)
    → at s1.board cell ≡ ok g
    → try_guess again next cell g s ≡ next (put s1 cell 0)
unfolding try_guess assert
try_failed again next cell g s s1 empty e now =
    let same : (g == g) ≡ true = ground arith in rw (empty, e, now, same)
