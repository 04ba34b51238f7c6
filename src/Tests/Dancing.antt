-- ===== src/Tests/Dancing.antt =====
-- The dancing links of lab1/src/Sudoku/TearcherCode on a small matrix and on a puzzle.
use cloud_computing_lab.Base.{
  ℕ, zero, suc, ◌+◌, ◌*◌, ◌/◌, ◌%◌, ◌-◌, ◌≤◌, ◌↔◌, ◌≡◌, refl, Bool, true, false, List, [], ◌∷◌,
  Option, none, some, Result, ok, err, ◌>>=◌, arith,
}
use cloud_computing_lab.Sudoku.Neighbors.{assert}
use cloud_computing_lab.Dance.Links.{Links, unlink, cover, uncover}
use cloud_computing_lab.Dance.Hide.{hide_all}
use cloud_computing_lab.Dance.Rings.{Row, IsColumn, nodes}
use cloud_computing_lab.Dance.Cover.{uncover-cover}
use cloud_computing_lab.Dance.Dlx.{remove, recover, get_id, columns_of, row_of, col_of, digit_of}
use cloud_computing_lab.Dance.Recover.{recover-remove}
use cloud_computing_lab.Dance.Candidates.{IsCandidate, candidate_bounds, candidate_columns}
use cloud_computing_lab.Dance.Grid.{Dance, no_nodes, new_column, append_column, new_row, put_left}
use cloud_computing_lab.Dance.Solve.{solve_sudoku_dancing_links}

-- Two columns and two rows of two nodes.
two_by_two : Result Dance
two_by_two = do
  (r, d0) ← new_column 0 (no_nodes [])
  d1 ← append_column 0 d0
  d2 ← append_column 1 d1
  (a, d3) ← new_row 0 d2
  (b, d4) ← new_row 1 d3
  (c, d5) ← new_row 0 (record d4 { links = put_left a b d4.links })
  (e, d6) ← new_row 1 d5
  ok (record d6 { links = put_left c e d6.links })

abbrev links_of : Result Dance → Links
links_of (ok d) = d.links
links_of (err e) = (no_nodes []).links

abbrev matrix : Links
matrix = links_of two_by_two

abbrev rows : List Row
rows = (3, 4 ∷ []) ∷ (5, 6 ∷ []) ∷ []

matrix-IsColumn : IsColumn matrix 1 rows
unfolding two_by_two new_column append_column new_row assert
matrix-IsColumn = record {
  before = refl;
  behind = refl;
  downwards = (refl, (refl, refl));
  upwards = (refl, (refl, refl));
  rows = (
    record { rightwards = (refl, refl); leftwards = (refl, refl); apart = (omega arith, tt) },
    (record { rightwards = (refl, refl); leftwards = (refl, refl); apart = (omega arith, tt) }, tt),
  );
  no_header = omega arith;
  apart = omega arith;
  linked = (record { above = refl; below = refl }, (record { above = refl; below = refl }, tt));
  distinct = omega arith;
}

uncover-cover_example :
    (m1 : Links) × (cover 3 matrix 1 ≡ some m1)
    × (m1 ≡ hide_all (unlink matrix 1) (nodes rows))
    × (uncover 3 m1 1 ≡ some matrix)
uncover-cover_example =
    uncover-cover 3 matrix 1 rows matrix-IsColumn (omega arith) (omega arith, (omega arith, tt))

recover-remove_example :
    (m1 : Links) × (remove 3 matrix 1 ≡ some m1)
    × (m1 ≡ hide_all (unlink matrix 1) (nodes rows))
    × (recover 3 m1 1 ≡ some matrix)
recover-remove_example =
    recover-remove 3 matrix 1 rows matrix-IsColumn (omega arith) (omega arith, (omega arith, tt))

fifth : IsCandidate 5 2 7
fifth = record {
  row_low = omega arith;
  row_high = omega arith;
  col_low = omega arith;
  col_high = omega arith;
  num_low = omega arith;
  num_high = omega arith;
}

sixth : IsCandidate 6 3 7
sixth = record {
  row_low = omega arith;
  row_high = omega arith;
  col_low = omega arith;
  col_high = omega arith;
  num_low = omega arith;
  num_high = omega arith;
}

candidate_bounds_example :
    ((1 ≤ get_id 5 2 7) × (get_id 5 2 7 ≤ 729))
    × ((row_of (get_id 5 2 7) ≡ 5) × (col_of (get_id 5 2 7) ≡ 2) × (digit_of (get_id 5 2 7) ≡ 7))
    × ((1 ≤ (columns_of 5 2 7).0) × ((columns_of 5 2 7).0 ≤ 81))
    × ((82 ≤ (columns_of 5 2 7).1) × ((columns_of 5 2 7).1 ≤ 162))
    × ((163 ≤ (columns_of 5 2 7).2) × ((columns_of 5 2 7).2 ≤ 243))
    × ((244 ≤ (columns_of 5 2 7).3) × ((columns_of 5 2 7).3 ≤ 324))
candidate_bounds_example = candidate_bounds 5 2 7 fifth

candidate_columns_example :
    (((columns_of 5 2 7).0 ≡ (columns_of 6 3 7).0) ↔ ((◌≡◌ {A = ℕ} 5 6) × (◌≡◌ {A = ℕ} 7 7)))
    × (((columns_of 5 2 7).1 ≡ (columns_of 6 3 7).1) ↔ ((◌≡◌ {A = ℕ} 2 3) × (◌≡◌ {A = ℕ} 7 7)))
    × (((columns_of 5 2 7).2 ≡ (columns_of 6 3 7).2) ↔ (
        (◌≡◌ {A = ℕ} ((5 - 1) / 3) ((6 - 1) / 3))
        × (◌≡◌ {A = ℕ} ((2 - 1) / 3) ((3 - 1) / 3))
        × (◌≡◌ {A = ℕ} 7 7)))
    × (((columns_of 5 2 7).3 ≡ (columns_of 6 3 7).3) ↔ ((◌≡◌ {A = ℕ} 5 6) × (◌≡◌ {A = ℕ} 2 3)))
candidate_columns_example = candidate_columns 5 2 7 6 3 7 fifth sixth

-- A full board, row by row, and the same without its first two digits.
abbrev full_from : ℕ → ℕ → List ℕ
full_from zero i = []
full_from (suc left) i = ((i / 9 * 3 + i / 27 + i % 9) % 9 + 1) ∷ full_from left (i + 1)

abbrev nearly_full : List ℕ
nearly_full = 0 ∷ 0 ∷ full_from 79 2

abbrev outcome : Option (Bool × Dance) → Bool × List ℕ
outcome none = (false, [])
outcome (some (done, d)) = (done, d.inout)

nearly_full_solved : outcome (solve_sudoku_dancing_links 20 nearly_full) ≡ (true, full_from 81 0)
unfolding solve_sudoku_dancing_links assert
nearly_full_solved = refl
