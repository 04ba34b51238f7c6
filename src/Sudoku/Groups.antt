-- ===== src/Sudoku/Groups.antt =====
-- The rows, columns and boxes over which `solved` of neighbor.cc loops.
use cloud_computing_lab.Base.{
  ℕ, zero, suc, ◌+◌, ◌*◌, ◌/◌, ◌%◌, ◌<◌, ◌≤◌, ◌≡◌, ◌≢◌, refl, Bool, true, false, not, ◌&&◌, ◌||◌,
  and-true, List, [], ◌∷◌, arith, ◌==◌, ==_iff, get_or, length, Bool-cases, inl, inr, All,
}
use cloud_computing_lab.Sudoku.Neighbors.{num, n_cells, member, related}
use cloud_computing_lab.Sudoku.Table.{below}
use cloud_computing_lab.Sudoku.Solved.{stride, rows_from, cols_from, boxes}
use cloud_computing_lab.Sudoku.Tally.{distinct}

abbrev every : (ℕ → Bool) → List ℕ → Bool
every p [] = true
every p (c ∷ cells) = let rest = every p cells in p c && rest

every-member :
    (p : ℕ → Bool) (a : ℕ) (cells : List ℕ)
    → every p cells ≡ true
    → member a cells ≡ true
    → p a ≡ true
every-member p a [] h m = cc
every-member p a (c ∷ cells) h m =
    let (here, later) = and-true (p c) (every p cells) h in
    elim (Bool-cases (c == a)) [
      | inl same ↦ let e : c ≡ a = (==_iff c a).0 same in rw (← e) here
      | inr differ ↦ every-member p a cells later (rw differ at m)
    ]

abbrev is_related : ℕ → ℕ → Bool
is_related a b = (a == b) || related a b

abbrev is_group : List ℕ → Bool
is_group cells =
    (length cells == num)
    && (distinct cells && (below cells && every (λ a. every (is_related a) cells) cells))

abbrev are_groups : List (List ℕ) → Bool
are_groups [] = true
are_groups (cells ∷ groups) = let rest = are_groups groups in is_group cells && rest

-- Nine different cells of the board, any two of them in one row, column or box.
pub record IsGroup (cells : List ℕ) : Type 0 where
  pub number : length cells ≡ num
  pub distinct : distinct cells ≡ true
  pub inside : below cells ≡ true
  pub near : (a b : ℕ) → member a cells ≡ true → member b cells ≡ true → a ≢ b → related a b ≡ true

is_group-IsGroup : (cells : List ℕ) → is_group cells ≡ true → IsGroup cells
is_group-IsGroup cells h =
    let (number, h1) = and-true (length cells == num) _ h in
    let (apart, h2) = and-true (distinct cells) _ h1 in
    let (inside, near) = and-true (below cells) _ h2 in
    record {
      number = (==_iff (length cells) num).0 number;
      distinct = apart;
      inside = inside;
      near = λ a b ma mb ne.
          let row = every-member (λ a. every (is_related a) cells) a cells near ma in
          let one = every-member (is_related a) b cells row mb in ground (arith, one, ne);
    }

are_groups_lem : (groups : List (List ℕ)) → are_groups groups ≡ true → All IsGroup groups
are_groups_lem [] h = tt
are_groups_lem (cells ∷ groups) h =
    let (here, later) = and-true (is_group cells) (are_groups groups) h in
    (is_group-IsGroup cells here, are_groups_lem groups later)

pub rows-IsGroup : All IsGroup (rows_from num 0)
unfolding rows_from stride
rows-IsGroup = are_groups_lem (rows_from num 0) refl

pub cols-IsGroup : All IsGroup (cols_from num 0)
unfolding cols_from stride
cols-IsGroup = are_groups_lem (cols_from num 0) refl

pub boxes-IsGroup : All IsGroup boxes
boxes-IsGroup = are_groups_lem boxes refl

-- The number of the box of a cell, and whether a cell is in its row, its column and its box.
abbrev box_number : ℕ → ℕ
box_number a = a / 27 * 3 + a % 9 / 3

abbrev at_home : ℕ → Bool
at_home a =
    member a (get_or (rows_from num 0) (a / 9) [])
    && (member a (get_or (cols_from num 0) (a % 9) []) && member a (get_or boxes (box_number a) []))

at_home_from : ℕ → ℕ → Bool
at_home_from zero a = true
at_home_from (suc left) a = let rest = at_home_from left (a + 1) in at_home a && rest

at_home_lem : (left b a : ℕ) → at_home_from left b ≡ true → b ≤ a → a < b + left → at_home a ≡ true
unfolding at_home_from
at_home_lem zero b a h le lt = absurd (omega arith)
at_home_lem (suc left) b a h le lt =
    let (here, later) = and-true (at_home b) (at_home_from left (b + 1)) h in
    elim (Bool-cases (b == a)) [
      | inl same ↦ let e : b ≡ a = (==_iff b a).0 same in rw (← e) here
      | inr differ ↦ at_home_lem left (b + 1) a later (ground arith) (omega arith)
    ]

all_at_home : at_home_from n_cells 0 ≡ true
unfolding at_home_from rows_from cols_from stride
all_at_home = refl

All-get :
    (P : List ℕ → Type 0) (groups : List (List ℕ)) (i : ℕ)
    → All P groups
    → i < length groups
    → P (get_or groups i [])
All-get P [] i h lt = absurd (omega arith)
All-get P (cells ∷ groups) zero (here, later) lt = here
All-get P (cells ∷ groups) (suc i) (here, later) lt = All-get P groups i later (omega arith)

same_box :
    (a b : ℕ)
    → related a b ≡ true
    → (a / 9 == b / 9) ≡ false
    → (a % 9 == b % 9) ≡ false
    → box_number a ≡ box_number b
same_box a b near no_row no_col =
    let in_box = and-true (not (a == b)) _ near in
    let (band, stack) =
      and-true (a / 27 == b / 27) (a % 9 / 3 == b % 9 / 3) (rw (no_row, no_col) at in_box.1) in
    let e = (==_iff (a / 27) (b / 27)).0 band in
    let e' = (==_iff (a % 9 / 3) (b % 9 / 3)).0 stack in omega (arith, e, e')

-- Two related cells are in one group.
pub related-All :
    (P : List ℕ → Type 0) (a b : ℕ)
    → All P (rows_from num 0)
    → All P (cols_from num 0)
    → All P boxes
    → a < n_cells
    → b < n_cells
    → related a b ≡ true
    → (cells : List ℕ) × P cells × (member a cells ≡ true) × (member b cells ≡ true)
unfolding rows_from cols_from stride
related-All P a b rows cols boxes' la lb near =
    let (ra, more) =
      and-true (member a (get_or (rows_from num 0) (a / 9) [])) _
        (at_home_lem n_cells 0 a all_at_home (omega arith) la) in
    let (rb, more') =
      and-true (member b (get_or (rows_from num 0) (b / 9) [])) _
        (at_home_lem n_cells 0 b all_at_home (omega arith) lb) in
    let (ca, ba) = and-true (member a (get_or (cols_from num 0) (a % 9) [])) _ more in
    let (cb, bb) = and-true (member b (get_or (cols_from num 0) (b % 9) [])) _ more' in
    elim (Bool-cases (a / 9 == b / 9)) [
      | inl one ↦
          let e : a / 9 ≡ b / 9 = (==_iff (a / 9) (b / 9)).0 one in
          (
            get_or (rows_from num 0) (b / 9) [],
            All-get P (rows_from num 0) (b / 9) rows (omega arith),
            rw (← e) ra,
            rb,
          )
      | inr no_row ↦ elim (Bool-cases (a % 9 == b % 9)) [
        | inl one ↦
            let e : a % 9 ≡ b % 9 = (==_iff (a % 9) (b % 9)).0 one in
            (
              get_or (cols_from num 0) (b % 9) [],
              All-get P (cols_from num 0) (b % 9) cols (omega arith),
              rw (← e) ca,
              cb,
            )
        | inr no_col ↦
            let e : box_number a ≡ box_number b = same_box a b near no_row no_col in
            (
              get_or boxes (box_number b) [],
              All-get P boxes (box_number b) boxes' (omega arith),
              rw (← e) ba,
              bb,
            )
      ]
    ]
