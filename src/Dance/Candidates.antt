-- ===== src/Dance/Candidates.antt =====
-- The rows and columns that `Insert` of DLX.h gives the digits of the cells.
use cloud_computing_lab.Base.{ℕ, ◌-◌, ◌/◌, ◌≤◌, ◌≡◌, ◌↔◌, arith}
use cloud_computing_lab.Dance.Dlx.{get_id, columns_of, row_of, col_of, digit_of}

-- A place on the board and a digit for it, counted from 1.
pub record IsCandidate (row col num : ℕ) : Type 0 where
  pub row_low : 1 ≤ row
  pub row_high : row ≤ 9
  pub col_low : 1 ≤ col
  pub col_high : col ≤ 9
  pub num_low : 1 ≤ num
  pub num_high : num ≤ 9

-- For a row, a column and a digit from 1 to 9: the number of the candidate is from 1 to 729, the
-- arithmetic of `dance` reads the row, the column and the digit back from it, and its four columns in
-- the matrix are from 1 to 81, 82 to 162, 163 to 243 and 244 to 324.
pub candidate_bounds :
    (row col num : ℕ)
    → IsCandidate row col num
    → ((1 ≤ get_id row col num) × (get_id row col num ≤ 729))
      × ((row_of (get_id row col num) ≡ row)
          × (col_of (get_id row col num) ≡ col)
          × (digit_of (get_id row col num) ≡ num))
      × ((1 ≤ (columns_of row col num).0) × ((columns_of row col num).0 ≤ 81))
      × ((82 ≤ (columns_of row col num).1) × ((columns_of row col num).1 ≤ 162))
      × ((163 ≤ (columns_of row col num).2) × ((columns_of row col num).2 ≤ 243))
      × ((244 ≤ (columns_of row col num).3) × ((columns_of row col num).3 ≤ 324))
unfolding get_id columns_of
candidate_bounds row col num k =
    let rl = k.row_low in
    let rh = k.row_high in
    let cl = k.col_low in
    let ch = k.col_high in
    let nl = k.num_low in
    let nh = k.num_high in
    (
      (omega arith, omega arith),
      (omega arith, omega arith, omega arith),
      (omega arith, omega arith),
      (omega arith, omega arith),
      (omega arith, omega arith),
      (omega arith, omega arith),
    )

-- Two candidates stand in the same one of the four columns exactly when they are in the same row with
-- the same digit, in the same column with the same digit, in the same box with the same digit, or in
-- the same cell.
pub candidate_columns :
    (r c n r' c' n' : ℕ)
    → IsCandidate r c n
    → IsCandidate r' c' n'
    → (((columns_of r c n).0 ≡ (columns_of r' c' n').0) ↔ ((r ≡ r') × (n ≡ n')))
      × (((columns_of r c n).1 ≡ (columns_of r' c' n').1) ↔ ((c ≡ c') × (n ≡ n')))
      × (((columns_of r c n).2 ≡ (columns_of r' c' n').2)
          ↔ (((r - 1) / 3 ≡ (r' - 1) / 3) × ((c - 1) / 3 ≡ (c' - 1) / 3) × (n ≡ n')))
      × (((columns_of r c n).3 ≡ (columns_of r' c' n').3) ↔ ((r ≡ r') × (c ≡ c')))
unfolding columns_of
candidate_columns r c n r' c' n' k k' =
    let rl = k.row_low in
    let rh = k.row_high in
    let cl = k.col_low in
    let ch = k.col_high in
    let nl = k.num_low in
    let nh = k.num_high in
    let rl' = k'.row_low in
    let rh' = k'.row_high in
    let cl' = k'.col_low in
    let ch' = k'.col_high in
    let nl' = k'.num_low in
    let nh' = k'.num_high in
    (
      (λ e. (omega arith, omega arith), λ e. omega arith),
      (λ e. (omega arith, omega arith), λ e. omega arith),
      (λ e. (omega arith, omega arith, omega arith), λ e. omega arith),
      (λ e. (omega arith, omega arith), λ e. omega arith),
    )
