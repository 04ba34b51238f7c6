-- ===== src/Sudoku/Agree.antt =====
-- The solvers of sudoku_basic.cc and sudoku_min_arity.cc on a board that `input` has read: both end,
-- and find a solution exactly if there is one.
use cloud_computing_lab.Base.{
  subst, ℕ, zero, suc, ◌+◌, ◌<◌, ◌≤◌, ◌≡◌, refl, sym, ap, ◌∙◌, true, false, List, ok, arith, leb,
  leb→le, length, drop, Bool-cases, inl, inr,
}
use cloud_computing_lab.Sudoku.Neighbors.{num}
use cloud_computing_lab.Sudoku.Table.{IsBoardTable}
use cloud_computing_lab.Sudoku.Solver.{State, Table, Choose, at, guess_loop, solve}
use cloud_computing_lab.Sudoku.Backtrack.{IsTable, at-get_or}
use cloud_computing_lab.Sudoku.Spaces.{at-total, Covers, drop_end, count, empty-at, at-empty}
use cloud_computing_lab.Sudoku.Search.{OnBoard, Chooses}
use cloud_computing_lab.Sudoku.Solutions.{IsSolution}
use cloud_computing_lab.Sudoku.Ready.{IsReady, carry, IsReady-on, next_empty}
use cloud_computing_lab.Sudoku.Decide.{Decides, NoneFrom, guess_loop-Decides}

-- A cell that is named from `k` on.
pub count-at :
    (spaces : List ℕ) (k j c : ℕ) → k ≤ j → at spaces j ≡ ok c → 1 ≤ count c (drop k spaces)
count-at List.[] k j c le h = cc
count-at (List.◌∷◌ x spaces) zero zero c le h = ground arith
count-at (List.◌∷◌ x spaces) zero (suc j) c le h =
    omega (arith, count-at spaces zero j c (omega arith) h)
count-at (List.◌∷◌ x spaces) (suc k) zero c le h = absurd (omega arith)
count-at (List.◌∷◌ x spaces) (suc k) (suc j) c le h = count-at spaces k j c (omega arith) h

pub ready-OnBoard : (table : Table) (k : ℕ) (s : State) → IsReady table k s → OnBoard k s.spaces
ready-OnBoard table k s r j c le h =
    let named = count-at s.spaces k j c le h in
    let one = r.covers c in
    let empty = at-empty s.board c (ground (arith, named, one)) in
    let cells = r.board.cells in
    let inside = (at-get_or s.board c 0 0 empty).1 in omega (arith, cells, inside)

no_space_left :
    (table : Table) (k : ℕ) (s : State)
    → IsReady table k s
    → length s.spaces ≤ k
    → IsSolution table s.board s.board
no_space_left table k s r le = record {
  proper = r.proper;
  extends = λ c v e nz. e;
  filled = λ c e.
      let covers = r.covers c in
      let here = empty-at s.board c e in
      let none_left = ap (count c) (drop_end s.spaces k le) in
      absurd (omega (arith, covers, here, none_left));
}

digit_from_one :
    (table : Table) (board solution : List ℕ) (cell : ℕ)
    → at board cell ≡ ok 0
    → NoneFrom table board cell 1
    → ¬ IsSolution table board solution
digit_from_one table board solution cell empty none_there sol =
    let (d, there, low, high) = sol.filled cell empty in
    let small = none_there solution d sol there in omega (arith, low, small)

module _ (table : Table) (t : IsBoardTable table) (both : IsTable table) (choose : Choose)
    (chooses : Chooses choose) where
  pub ends_here :
      (fuel k : ℕ) (s : State) → length s.spaces ≤ k → solve table choose fuel k s ≡ ok (true, s)
  unfolding solve
  ends_here zero k s le = refl
  ends_here (suc fuel) k s le = let e : leb (length s.spaces) k ≡ true = ground arith in rw e

  pub goes_on :
      (fuel k cell : ℕ) (s s1 : State)
      → k < length s.spaces
      → choose s k ≡ ok s1
      → at s1.spaces k ≡ ok cell
      → solve table choose (suc fuel) k s
        ≡ guess_loop table (solve table choose fuel (k + 1)) cell num 1 s1
  unfolding solve
  goes_on fuel k cell s s1 lt chosen here =
      let e : leb (length s.spaces) k ≡ false = ground arith in rw (e, chosen, here) refl

  decided_at_end :
      (fuel spaces k : ℕ) → spaces ≤ k → Decides table t both spaces k (solve table choose fuel k)
  decided_at_end fuel spaces k le s r n =
      let none_behind : length s.spaces ≤ k = omega (arith, n, le) in
      (
        (true, s),
        ends_here fuel k s none_behind,
        record {
          found = λ e. no_space_left table k s r none_behind;
          same_board = λ e. cc;
          same_spaces = λ e. cc;
          same_before = λ e. cc;
        },
        λ e. cc,
      )

  decided_by_guesses :
      (fuel spaces k : ℕ)
      → k < spaces
      → Decides table t both spaces (k + 1) (solve table choose fuel (k + 1))
      → Decides table t both spaces k (solve table choose (suc fuel) k)
  decided_by_guesses fuel spaces k lt later s r n =
      let more : k < length s.spaces = omega (arith, n, lt) in
      let (s1, ran, chosen) = chooses s k r.board (ready-OnBoard table k s r) more in
      let number = chosen.same_length in
      let (cell, here) = at-total s1.spaces k (omega (arith, number, more)) in
      let covers : Covers k s1.spaces s.board = λ c. chosen.same_rest c ∙ r.covers c in
      let r1 = IsReady-on table k s s1 chosen.same_board covers r in
      let (x, found, d, none_with) =
        guess_loop-Decides table t both (solve table choose fuel (k + 1)) spaces k cell num 1
          (omega arith) (omega arith) later s1 r1 (number ∙ n) here in
      (
        x,
        goes_on fuel k cell s s1 more ran here ∙ found,
        carry table k s s1 x chosen.same_board number chosen.same_before d,
        λ e solution sol.
            let empty = (next_empty table k s1 cell r1 here).0 in
            digit_from_one table s1.board solution cell empty (none_with e)
              (subst (λ b. IsSolution table b solution) (sym chosen.same_board) sol),
      )

  pub solve-Decides :
      (fuel spaces k : ℕ)
      → spaces ≤ fuel + k
      → Decides table t both spaces k (solve table choose fuel k)
  solve-Decides zero spaces k le = decided_at_end zero spaces k (omega (arith, le))
  solve-Decides (suc fuel) spaces k le = elim (Bool-cases (leb spaces k)) [
    | inl all_filled ↦ decided_at_end (suc fuel) spaces k (leb→le spaces k all_filled)
    | inr more ↦
        decided_by_guesses fuel spaces k (ground (arith, more))
          (solve-Decides fuel spaces (k + 1) (omega (arith, le)))
  ]
