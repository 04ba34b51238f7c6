-- ===== src/Sudoku/Backtrack.antt =====
-- What the back-tracking of sudoku_basic.cc and sudoku_min_arity.cc keeps: boards without a clash,
-- and the board as it was if no guess fits.
use cloud_computing_lab.Base.{
  ℕ, zero, suc, ◌+◌, ◌-◌, ◌<◌, ◌≢◌, Bool, true, false, not, ◌&&◌, ◌≡◌, refl, sym, ap, ◌∙◌, inl, inr,
  List, [], ◌∷◌, Result, ok, ◌>>=◌, >>=-eq-ok, arith, leb, ◌==◌, ==_iff, get_or, set, length,
  Bool-cases, Ensures, gives, faults, Ensures-bind, Ensures-if, Ensures-ok, ok-injective,
  get_or-set_self, get_or-set_ne,
}
use cloud_computing_lab.Sudoku.Neighbors.{member, assert, num}
use cloud_computing_lab.Sudoku.Solver.{
  State, Table, at, none_holds, available, try_guess, guess_loop, solve, solve_sudoku_basic,
  solve_sudoku_min_arity, Choose, choose_none, put, arity, search_min, find_min_arity, swap_spaces,
  depth,
}

-- Whether a cell and a neighbour of it hold the same digit.
abbrev pub clash : Table → List ℕ → ℕ → ℕ → Bool
clash table board a b =
    member b (get_or table a [])
    && (not (get_or board a 0 == 0) && (get_or board a 0 == get_or board b 0))

-- No cell holds the digit of one of its neighbours.
abbrev pub Proper : Table → List ℕ → Type 0
Proper table board = (a b : ℕ) → clash table board a b ≡ false

-- Being a neighbour goes both ways, and no cell is its own neighbour.
pub record IsTable (table : Table) : Type 0 where
  pub both_ways : (a b : ℕ) → member b (get_or table a []) ≡ member a (get_or table b [])
  pub not_own : (a : ℕ) → member a (get_or table a []) ≡ false

pub at-get_or : (b : List ℕ) (i v d : ℕ) → at b i ≡ ok v → (get_or b i d ≡ v) × (i < length b)
at-get_or [] i v d h = cc
at-get_or (x ∷ b) zero v d h = (ok-injective h, omega arith)
at-get_or (x ∷ b) (suc i) v d h = let (e, l) = at-get_or b i v d h in (e, omega (arith, l))

pub at-row : (t : Table) (i : ℕ) (near : List ℕ) → at t i ≡ ok near → get_or t i [] ≡ near
at-row [] i near h = cc
at-row (x ∷ t) zero near h = ok-injective h
at-row (x ∷ t) (suc i) near h = at-row t i near h

pub set_back : (b : List ℕ) (i g v : ℕ) → at b i ≡ ok v → set (set b i g) i v ≡ b
set_back [] i g v h = refl
set_back (x ∷ b) zero g v h = ap (λ y. y ∷ b) (sym (ok-injective h))
set_back (x ∷ b) (suc i) g v h = ap (λ y. x ∷ y) (set_back b i g v h)

-- What `available` has looked at.
pub none_holds-member :
    (board near : List ℕ) (guess b : ℕ)
    → none_holds board guess near ≡ ok true
    → member b near ≡ true
    → (get_or board b 0 == guess) ≡ false
unfolding none_holds
none_holds-member board [] guess b h m = cc
none_holds-member board (n ∷ near) guess b h m =
    let (value, e, later) = >>=-eq-ok (at board n) _ h in
    elim (Bool-cases (value == guess)) [
      | inl hit ↦ let c : ok false ≡ ok true = rw hit at later in cc
      | inr miss ↦ elim (Bool-cases (n == b)) [
        | inl here ↦
            let same : n ≡ b = (==_iff n b).0 here in
            let held : get_or board b 0 ≡ value =
              ap (λ x. get_or board x 0) (sym same) ∙ (at-get_or board n value 0 e).0 in
            rw held miss
        | inr there ↦ none_holds-member board near guess b (rw miss at later) (rw there at m)
      ]
    ]

no_clash :
    (m : Bool) (x y : ℕ) → (m ≡ true → (x == y) ≡ false) → (m && (not (x == 0) && (x == y))) ≡ false
no_clash false x y h = refl
no_clash true x y h = let d = h refl in ground (arith, d)

eq_swap : (x y : ℕ) → (x == y) ≡ false → (y == x) ≡ false
eq_swap x y h = ground arith

module _ (table : Table) (t : IsTable table) where
  available-member :
      (board : List ℕ) (guess cell b : ℕ)
      → available table board guess cell ≡ ok true
      → member b (get_or table cell []) ≡ true
      → (get_or board b 0 == guess) ≡ false
  unfolding available
  available-member board guess cell b free m =
      let (near, row, scan) = >>=-eq-ok (at table cell) _ free in
      none_holds-member board near guess b scan (rw (at-row table cell near row) at m)

  -- A digit that is available in a cell makes no clash there.
  pub put-Proper :
      (board : List ℕ) (cell guess : ℕ)
      → Proper table board
      → available table board guess cell ≡ ok true
      → cell < length board
      → Proper table (set board cell guess)
  put-Proper board cell guess proper free inside a b = elim (Bool-cases (cell == a)) [
    | inl ea ↦ elim (Bool-cases (cell == b)) [
      | inl eb ↦
          no_clash _ (get_or (set board cell guess) a 0) (get_or (set board cell guess) b 0)
            λ m. absurd (own ((==_iff cell a).0 ea) ((==_iff cell b).0 eb) m)
      | inr nb ↦ no_clash _ _ _ (first ((==_iff cell a).0 ea) nb)
    ]
    | inr na ↦ elim (Bool-cases (cell == b)) [
      | inl eb ↦ no_clash _ _ _ (second na ((==_iff cell b).0 eb))
      | inr nb ↦ rw (kept a na, kept b nb) (proper a b)
    ]
  ]
    where
      kept : (c : ℕ) → (cell == c) ≡ false → get_or (set board cell guess) c 0 ≡ get_or board c 0
      kept c ne = get_or-set_ne board cell c guess 0 (ground arith)

      held : (c : ℕ) → cell ≡ c → get_or (set board cell guess) c 0 ≡ guess
      held c e = rw (← e) (get_or-set_self board cell guess 0 inside)

      own : cell ≡ a → cell ≡ b → member b (get_or table a []) ≢ true
      own ea eb m =
          let n : member b (get_or table a []) ≡ false = rw (← ea, ← eb) (t.not_own cell) in cc

      first :
          cell ≡ a
          → (cell == b) ≡ false
          → member b (get_or table a []) ≡ true
          → (get_or (set board cell guess) a 0 == get_or (set board cell guess) b 0) ≡ false
      first ea nb m =
          rw (held a ea, kept b nb)
            (eq_swap _ _ (available-member board guess cell b free (rw (← ea) at m)))

      second :
          (cell == a) ≡ false
          → cell ≡ b
          → member b (get_or table a []) ≡ true
          → (get_or (set board cell guess) a 0 == get_or (set board cell guess) b 0) ≡ false
      second na eb m =
          rw (held b eb, kept a na)
            (available-member board guess cell a free (sym (t.both_ways a cell) ∙ (rw (← eb) at m)))

-- What the result of a solver is, started on a board: no clash, and the
-- same board if nothing was found.
pub record Kept (table : Table) (board : List ℕ) (x : Bool × State) : Type 0 where
  pub proper : Proper table x.1.board
  pub restored : x.0 ≡ false → x.1.board ≡ board

-- A choice of the next space that leaves the board alone.
abbrev pub LeavesBoard : Choose → Type 0
LeavesBoard choose = (s : State) (k : ℕ) → Ensures (λ (s1 : State). s1.board ≡ s.board) (choose s k)

module _ (table : Table) (t : IsTable table) where
  -- A call that keeps proper boards.
  abbrev Good : (State → Result (Bool × State)) → Type 0
  Good call = (s : State) → Proper table s.board → Ensures (Kept table s.board) (call s)

  after-Kept :
      (next : State → Result (Bool × State)) (cell guess : ℕ) (s : State) (done : Bool) (s1 : State)
      → Good next
      → Proper table s.board
      → at s.board cell ≡ ok 0
      → Kept table (set s.board cell guess) (done, s1)
      → Ensures (Kept table s.board) (elim done [
        | true ↦ ok (true, s1)
        | false ↦ do now ← at s1.board cell; assert (now == guess) (next (put s1 cell 0))
      ])
  unfolding assert
  after-Kept next cell guess s true s1 good proper empty k =
      gives _ (record { proper = k.proper; restored = λ e. cc })
  after-Kept next cell guess s false s1 good proper empty k =
      let back : set s1.board cell 0 ≡ s.board =
        ap (λ b. set b cell 0) (k.restored refl) ∙ set_back s.board cell guess 0 empty in
      Ensures-bind (at s1.board cell) _ λ now _. elim (Bool-cases (now == guess)) [
        | inl e ↦ rw e (rw (← back) (good (put s1 cell 0) (rw back proper)))
        | inr e ↦ rw e (faults _)
      ]

  try_guess-Kept :
      (again next : State → Result (Bool × State)) (cell guess : ℕ) (s : State)
      → Good again
      → Good next
      → Proper table s.board
      → available table s.board guess cell ≡ ok true
      → Ensures (Kept table s.board) (try_guess again next cell guess s)
  unfolding try_guess assert
  try_guess-Kept again next cell guess s good_again good_next proper free =
      Ensures-bind (at s.board cell) _ λ old read. elim (Bool-cases (old == 0)) [
        | inl empty ↦ rw empty (
            Ensures-bind (again (put s cell guess)) _ λ x ran.
              let zero_there : at s.board cell ≡ ok 0 = read ∙ ap ok ((==_iff old 0).0 empty) in
              let inside = (at-get_or s.board cell old 0 read).1 in
              after-Kept next cell guess s x.0 x.1 good_next proper zero_there (
                Ensures-ok ran (
                  good_again (put s cell guess)
                    (put-Proper table t s.board cell guess proper free inside))))
        | inr filled ↦ rw filled (faults _)
      ]

  guess_loop-Kept :
      (again : State → Result (Bool × State)) (cell left guess : ℕ)
      → Good again
      → Good (guess_loop table again cell left guess)
  unfolding guess_loop
  guess_loop-Kept again cell zero guess good s proper =
      gives _ (record { proper = proper; restored = λ e. refl })
  guess_loop-Kept again cell (suc left) guess good s proper =
      Ensures-bind (available table s.board guess cell) _ λ free e. elim (Bool-cases free) [
        | inl can ↦ rw can (
            try_guess-Kept again (guess_loop table again cell left (guess + 1)) cell guess s good
              (guess_loop-Kept again cell left (guess + 1) good) proper (e ∙ ap ok can))
        | inr not_free ↦ rw not_free (guess_loop-Kept again cell left (guess + 1) good s proper)
      ]

  solve-Kept :
      (choose : Choose) (fuel k : ℕ) → LeavesBoard choose → Good (solve table choose fuel k)
  unfolding solve
  solve-Kept choose zero k leaves s proper =
      gives _ (record { proper = proper; restored = λ e. cc })
  solve-Kept choose (suc fuel) k leaves s proper =
      Ensures-if (leb (length s.spaces) k)
        (λ _. gives _ (record { proper = proper; restored = λ e. cc }))
        λ _. Ensures-bind (choose s k) _ λ s1 chosen. Ensures-bind (at s1.spaces k) _ λ cell _.
          let same = Ensures-ok chosen (leaves s k) in
          rw (← same) (
            guess_loop-Kept (solve table choose fuel (k + 1)) cell num 1
              (solve-Kept choose fuel (k + 1) leaves) s1 (rw same proper))

-- Neither `find_min_arity` nor the basic solver's choice touches the board.
choose_none-LeavesBoard : LeavesBoard choose_none
choose_none-LeavesBoard s k = gives s refl

find_min_arity-LeavesBoard : (table : Table) → LeavesBoard (find_min_arity table)
unfolding find_min_arity swap_spaces
find_min_arity-LeavesBoard table s k = Ensures-bind (at s.spaces k) _ λ cell _.
    Ensures-bind (arity table s.board cell) _ λ n _.
      Ensures-bind (search_min (length s.spaces - (k + 1)) table s (k + 1) k n) _ λ j _.
        Ensures-if (k == j) (λ _. gives s refl)
          λ _.
            Ensures-bind (at s.spaces j) _ λ a _. Ensures-bind (at s.spaces k) _ λ b _. gives _ refl

-- The two solvers, which differ in the choice of the next space.
pub data Solver : Type 0 where
  basic min_arity : Solver

abbrev pub run : Solver → Table → ℕ → State → Result (Bool × State)
run basic = solve_sudoku_basic
run min_arity = solve_sudoku_min_arity

pub run-Kept :
    (solver : Solver) (table : Table) (s : State) (k : ℕ)
    → IsTable table
    → Proper table s.board
    → Ensures (Kept table s.board) (run solver table k s)
unfolding solve_sudoku_basic solve_sudoku_min_arity
run-Kept basic table s k t proper =
    solve-Kept table t choose_none (depth s k) k choose_none-LeavesBoard s proper
run-Kept min_arity table s k t proper =
    solve-Kept table t (find_min_arity table) (depth s k) k (find_min_arity-LeavesBoard table) s
      proper
