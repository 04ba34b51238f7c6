-- ===== src/Sudoku/Cache/Refines.antt =====
-- The solver of sudoku_min_arity_cache.cc does what that of sudoku_min_arity.cc does.
use cloud_computing_lab.Base.{
  subst, ℕ, zero, suc, ◌+◌, ◌<◌, ◌≤◌, ◌≡◌, refl, sym, ◌∙◌, true, false, ok, arith, leb, leb→le,
  length, Bool-cases, inl, inr, ok-injective,
}
use cloud_computing_lab.Sudoku.Neighbors.{num}
use cloud_computing_lab.Sudoku.Table.{IsBoardTable}
use cloud_computing_lab.Sudoku.Backtrack.{IsTable}
use cloud_computing_lab.Sudoku.Spaces.{at-total, Covers}
use cloud_computing_lab.Sudoku.Search.{find_min_arity-Chooses}
use cloud_computing_lab.Sudoku.Solver.{Table, at, find_min_arity, solve}
use cloud_computing_lab.Sudoku.Ready.{IsReady-on}
use cloud_computing_lab.Sudoku.Decide.{Decides}
use cloud_computing_lab.Sudoku.Agree.{ready-OnBoard, ends_here, goes_on, solve-Decides}
use cloud_computing_lab.Sudoku.Cache.{Cache, find_min_cached, guess_cached, solve_cached}
use cloud_computing_lab.Sudoku.Cache.Hold.{IsCached}
use cloud_computing_lab.Sudoku.Cache.Choice.{find_min_same}
use cloud_computing_lab.Sudoku.Cache.Guess.{IsSame, Simulates, guess_loop-Simulates}

module _ (table : Table) (t : IsBoardTable table) (both : IsTable table) where
  solve_end :
      (fuel k : ℕ) (c : Cache)
      → length c.state.spaces ≤ k
      → solve_cached table fuel k c ≡ ok (true, c)
  unfolding solve_cached
  solve_end zero k c le = refl
  solve_end (suc fuel) k c le = let e : leb (length c.state.spaces) k ≡ true = ground arith in rw e

  solve_next :
      (fuel k cell : ℕ) (c c1 : Cache)
      → k < length c.state.spaces
      → find_min_cached c k ≡ ok c1
      → at c1.state.spaces k ≡ ok cell
      → solve_cached table (suc fuel) k c
        ≡ guess_cached table (solve_cached table fuel (k + 1)) cell num 1 c1
  unfolding solve_cached
  solve_next fuel k cell c c1 lt chosen there =
      let e : leb (length c.state.spaces) k ≡ false = ground arith in rw (e, chosen, there) refl

  Simulates-at_end :
      (fuel spaces k : ℕ)
      → spaces ≤ k
      → Simulates table t both spaces k
          (solve table (find_min_arity table) fuel k)
          (solve_cached table fuel k)
  Simulates-at_end fuel spaces k le c r h n x ran =
      let none_behind : length c.state.spaces ≤ k = omega (arith, n, le) in
      let whole = ok-injective (
        sym (
          ends_here table t both (find_min_arity table) (find_min_arity-Chooses table t) fuel k
            c.state none_behind)
        ∙ ran) in
      subst (λ y. IsSame c y (solve_cached table fuel k c)) whole
        (c.marks, solve_end fuel k c none_behind, λ e. cc)

  Simulates-guesses :
      (fuel spaces k : ℕ)
      → k < spaces
      → Decides table t both spaces (k + 1) (solve table (find_min_arity table) fuel (k + 1))
      → Simulates table t both spaces
          (k + 1)
          (solve table (find_min_arity table) fuel (k + 1))
          (solve_cached table fuel (k + 1))
      → Simulates table t both spaces k
          (solve table (find_min_arity table) (suc fuel) k)
          (solve_cached table (suc fuel) k)
  Simulates-guesses fuel spaces k lt decides later c r h n x ran =
      let chooses = find_min_arity-Chooses table t in
      let more : k < length c.state.spaces = omega (arith, n, lt) in
      let (s1, found, chosen) = chooses c.state k r.board (ready-OnBoard table k c.state r) more in
      let number = chosen.same_length in
      let (cell, there) = at-total s1.spaces k (omega (arith, number, more)) in
      let covers : Covers k s1.spaces c.state.board = λ y. chosen.same_rest y ∙ r.covers y in
      let c1 : Cache = record { state = s1; marks = c.marks } in
      let cached = subst (λ b. IsCached table b c.marks) (sym chosen.same_board) h in
      let loop =
        sym (
          goes_on table t both (find_min_arity table) chooses fuel k cell c.state s1 more found
            there)
        ∙ ran in
      let (m, ended, restored) =
        guess_loop-Simulates table t both (solve table (find_min_arity table) fuel (k + 1))
          (solve_cached table fuel (k + 1)) spaces k cell num 1 (omega arith) (omega arith) decides
          later c1 (IsReady-on table k c.state s1 chosen.same_board covers r) cached (number ∙ n)
          there x loop in
      (
        m,
        solve_next fuel k cell c c1 more (find_min_same table t k c s1 r h more found) there
            ∙ ended,
        restored,
      )

  pub solve-Simulates :
      (fuel spaces k : ℕ)
      → spaces ≤ fuel + k
      → Simulates table t both spaces k
          (solve table (find_min_arity table) fuel k)
          (solve_cached table fuel k)
  solve-Simulates zero spaces k le = Simulates-at_end zero spaces k (omega (arith, le))
  solve-Simulates (suc fuel) spaces k le = elim (Bool-cases (leb spaces k)) [
    | inl all_filled ↦ Simulates-at_end (suc fuel) spaces k (leb→le spaces k all_filled)
    | inr more ↦
        let next : spaces ≤ fuel + (k + 1) = omega (arith, le) in
        Simulates-guesses fuel spaces k (ground (arith, more))
          (solve-Decides table t both (find_min_arity table) (find_min_arity-Chooses table t) fuel
            spaces (k + 1) next)
          (solve-Simulates fuel spaces (k + 1) next)
  ]
