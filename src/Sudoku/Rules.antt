-- ===== src/Sudoku/Rules.antt =====
-- The two solvers of lab1/src/Sudoku/TearcherCode with the table that `init_neighbors` makes.
use cloud_computing_lab.Base.{
  ℕ, ◌≡◌, refl, sym, ◌∙◌, inl, inr, Bool, false, ok, arith, ltb, Bool-cases, Ensures-ok,
}
use cloud_computing_lab.Sudoku.Neighbors.{init_neighbors, n_cells}
use cloud_computing_lab.Sudoku.Table.{
  IsBoardTable, made-IsBoardTable, member-outside, related-sym, not_related,
}
use cloud_computing_lab.Sudoku.Solver.{State, Table}
use cloud_computing_lab.Sudoku.Backtrack.{IsTable, Proper, Solver, run, run-Kept}

board-IsTable : (table : Table) → IsBoardTable table → IsTable table
board-IsTable table t = record {
  both_ways = λ a b. elim (Bool-cases (ltb a n_cells)) [
    | inr out ↦
        member-outside table a b t (inl (ground arith))
        ∙ sym (member-outside table b a t (inr (ground arith)))
    | inl ha ↦ elim (Bool-cases (ltb b n_cells)) [
      | inr out ↦
          member-outside table a b t (inr (ground arith))
          ∙ sym (member-outside table b a t (inl (ground arith)))
      | inl hb ↦
          (t.row a (ground arith)).right b (ground arith)
          ∙ related-sym a b
          ∙ sym ((t.row b (ground arith)).right a (ground arith))
    ]
  ];
  not_own = λ a. elim (Bool-cases (ltb a n_cells)) [
    | inl ha ↦ (t.row a (ground arith)).right a (ground arith) ∙ not_related a
    | inr out ↦ member-outside table a a t (inl (ground arith))
  ];
}

pub table-IsTable : (table : Table) → init_neighbors ≡ ok table → IsTable table
table-IsTable table made = board-IsTable table (made-IsBoardTable table made)

-- With the table that init_neighbors makes, and a board on which no cell holds the digit of one of
-- its neighbours, whatever either solver returns, it leaves such a board again.
pub solve-Proper :
    (solver : Solver) (table : Table) (s : State) (k : ℕ) (x : Bool × State)
    → init_neighbors ≡ ok table
    → Proper table s.board
    → run solver table k s ≡ ok x
    → Proper table x.1.board
solve-Proper solver table s k x made proper e =
    (Ensures-ok e (run-Kept solver table s k (table-IsTable table made) proper)).proper

-- With the table that init_neighbors makes, and a board on which no cell holds the digit of one of
-- its neighbours: a solver that returns false, from whatever space it started, leaves the board as
-- it was.
pub failure_restores :
    (solver : Solver) (table : Table) (s s1 : State) (k : ℕ)
    → init_neighbors ≡ ok table
    → Proper table s.board
    → run solver table k s ≡ ok (false, s1)
    → s1.board ≡ s.board
failure_restores solver table s s1 k made proper e =
    (Ensures-ok e (run-Kept solver table s k (table-IsTable table made) proper)).restored refl
