-- ===== src/Sudoku/Accepts.antt =====
-- What `solved` of lab1/src/Sudoku/TearcherCode/neighbor.cc says of a filled board.
use cloud_computing_lab.Base.{
  ℕ, ◌<◌, ◌≤◌, ◌≡◌, ◌≢◌, ◌↔◌, ◌∙◌, refl, sym, Bool, true, ◌&&◌, List, [], ok, arith, ltb, get_or,
  All-map, ◌⊎◌, Bool-cases, inl, inr,
}
use cloud_computing_lab.Sudoku.Neighbors.{n_cells, member, related, init_neighbors}
use cloud_computing_lab.Sudoku.Table.{IsBoardTable, made-IsBoardTable, member-outside}
use cloud_computing_lab.Sudoku.Solver.{Table}
use cloud_computing_lab.Sudoku.Backtrack.{Proper}
use cloud_computing_lab.Sudoku.Solved.{solved, boxes}
use cloud_computing_lab.Sudoku.Tally.{IsFilled, Differ}
use cloud_computing_lab.Sudoku.Groups.{
  IsGroup, rows-IsGroup, cols-IsGroup, boxes-IsGroup, related-All,
}
use cloud_computing_lab.Sudoku.Once.{AllDiffer, member-below_lt, value_of, solved_lem}

Proper-Differ :
    (table : Table) (board cells : List ℕ)
    → IsBoardTable table
    → IsFilled board
    → IsGroup cells
    → Proper table board
    → Differ board cells
Proper-Differ table board cells t f g proper a b ma mb ne e =
    let la = member-below_lt cells a g.inside ma in
    let lb = member-below_lt cells b g.inside mb in
    let listed = (t.row a la).right b lb ∙ g.near a b ma mb ne in
    let low = (value_of board a f la).0 in
    let apart = proper a b in ground (arith, rw listed at apart, low, e)

module _ (table : Table) (board : List ℕ) (t : IsBoardTable table) where
  Proper-AllDiffer : IsFilled board → Proper table board → AllDiffer board
  Proper-AllDiffer f proper =
      let each : (cells : List ℕ) → IsGroup cells → Differ board cells =
        λ cells g. Proper-Differ table board cells t f g proper in
      (All-map _ each rows-IsGroup, All-map _ each cols-IsGroup, All-map boxes each boxes-IsGroup)

  related-differ :
      (a b : ℕ)
      → AllDiffer board
      → a < n_cells
      → b < n_cells
      → related a b ≡ true
      → get_or board a 0 ≢ get_or board b 0
  related-differ a b (rows, cols, boxed) la lb near =
      let (cells, differ, ma, mb) = related-All (Differ board) a b rows cols boxed la lb near in
      let ne : a ≢ b = ground (arith, near) in differ a b ma mb ne

  AllDiffer-Proper : AllDiffer board → Proper table board
  AllDiffer-Proper all a b = elim (Bool-cases (member b (get_or table a []))) [
    | inr apart ↦ rw apart refl
    | inl listed ↦ elim (Bool-cases (ltb a n_cells && ltb b n_cells)) [
      | inl inside ↦
          let la : a < n_cells = ground (arith, inside) in
          let lb : b < n_cells = ground (arith, inside) in
          let near = sym ((t.row a la).right b lb) ∙ listed in
          let ne = related-differ a b all la lb near in ground (arith, ne)
      | inr outside ↦
          let past : (n_cells ≤ a) ⊎ (n_cells ≤ b) = ground (arith, outside) in
          let none = member-outside table a b t past in ground (arith, listed, none)
    ]
  ]

-- With the table that init_neighbors makes, and a board with a digit from 1 to 9 at each cell: `solved`
-- does not fail, and says yes exactly if no cell holds the digit of one of its neighbours.
pub solved_right :
    (table : Table) (board : List ℕ)
    → init_neighbors ≡ ok table
    → IsFilled board
    → (b : Bool) × (solved board ≡ ok b) × ((b ≡ true) ↔ Proper table board)
solved_right table board made f =
    let t = made-IsBoardTable table made in
    let (b, ran, means) = solved_lem board f in
    (
      b,
      ran,
      (
        λ e. AllDiffer-Proper table board t (means.0 e),
        λ proper. means.1 (Proper-AllDiffer table board t f proper),
      ),
    )
