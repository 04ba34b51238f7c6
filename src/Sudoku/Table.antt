-- ===== src/Sudoku/Table.antt =====
-- The table that `init_neighbors` of lab1/src/Sudoku/TearcherCode/neighbor.cc makes.
use cloud_computing_lab.Base.{
  ℕ, zero, suc, ◌+◌, ◌/◌, ◌%◌, ◌<◌, ◌≡◌, refl, Bool, true, false, not, ◌&&◌, and-true, List, [],
  ◌∷◌, Result, ok, err, arith, length, get_or, ◌==◌, ◌≤◌, ==_iff, ltb, Bool-cases, inl, inr, ap,
  subst, sym, ◌∙◌, ◌⊎◌, ok-injective,
}
use cloud_computing_lab.Sudoku.Neighbors.{
  num, n_cells, n_neighbors, assert, mark, mark_lines, mark_box, mark_adjacent, collect,
  collect_neighbors, neighbors_of, init_from, init_neighbors, member, related,
}

abbrev same_bool : Bool → Bool → Bool
same_bool true b = b
same_bool false b = not b

-- The neighbours of a cell are right about `left` cells from `b` on.
abbrev row_right : ℕ → ℕ → ℕ → List ℕ → Bool
row_right zero b a near = true
row_right (suc left) b a near =
    let rest = row_right left (b + 1) a near in same_bool (member b near) (related a b) && rest

abbrev pub below : List ℕ → Bool
below [] = true
below (b ∷ near) = let rest = below near in ltb b n_cells && rest

abbrev cell_right : ℕ → Result (List ℕ) → Bool
cell_right a (ok near) = row_right n_cells 0 a near && (below near && (length near == n_neighbors))
cell_right a (err e) = false

-- So are those of `left` cells from `a` on.
unfoldable all_right : ℕ → ℕ → Bool
all_right zero a = true
all_right (suc left) a =
    let rest = all_right left (a + 1) in cell_right a (neighbors_of (a / num) (a % num)) && rest

all_right_lem : all_right n_cells 0 ≡ true
unfolding all_right neighbors_of mark_adjacent mark_lines mark_box mark collect_neighbors collect
    assert
all_right_lem = refl

-- The neighbours of a cell: right about every cell of the board, all of them on it, and NEIGHBOR
-- many.
pub record IsRow (a : ℕ) (near : List ℕ) : Type 0 where
  pub right : (b : ℕ) → b < n_cells → member b near ≡ related a b
  pub inside : below near ≡ true
  pub number : length near ≡ n_neighbors

same : (x y : Bool) → same_bool x y ≡ true → x ≡ y
same x y h = ground arith

row_right_lem :
    (left b a : ℕ) (near : List ℕ) (c : ℕ)
    → row_right left b a near ≡ true
    → b ≤ c
    → c < b + left
    → member c near ≡ related a c
row_right_lem zero b a near c h le lt = absurd (omega arith)
row_right_lem (suc left) b a near c h le lt =
    let (here, later) = and-true (same_bool (member b near) (related a b)) _ h in
    elim (Bool-cases (b == c)) [
      | inl e ↦ let k : b ≡ c = (==_iff b c).0 e in rw (← k) (same _ _ here)
      | inr e ↦ row_right_lem left (b + 1) a near c later (ground arith) (omega arith)
    ]

cell_right-IsRow : (a : ℕ) (near : List ℕ) → cell_right a (ok near) ≡ true → IsRow a near
cell_right-IsRow a near h =
    let (row, more) = and-true (row_right n_cells 0 a near) _ h in
    let (inside, number) = and-true (below near) _ more in
    record {
      right = λ b lt. row_right_lem n_cells 0 a near b row (omega arith) lt;
      inside = inside;
      number = (==_iff (length near) n_neighbors).0 number;
    }

abbrev pub Rows : ℕ → List (List ℕ) → Type 0
Rows a [] = Unit
Rows a (near ∷ table) = IsRow a near × Rows (a + 1) table

init_from-Rows :
    (left a : ℕ)
    → all_right left a ≡ true
    → (table : List (List ℕ)) × (init_from left a ≡ ok table) × (length table ≡ left) × Rows a table
unfolding all_right init_from
init_from-Rows zero a h = ([], refl, refl, tt)
init_from-Rows (suc left) a h =
    let (here, later) = and-true (cell_right a (neighbors_of (a / num) (a % num))) _ h in
    let (near, found, row) = right_row (neighbors_of (a / num) (a % num)) here in
    let (table, made, number, rows) = init_from-Rows left (a + 1) later in
    (near ∷ table, rw (found, made), ap suc number, (row, rows))
  where
    right_row :
        (r : Result (List ℕ))
        → cell_right a r ≡ true
        → (near : List ℕ) × (r ≡ ok near) × IsRow a near
    right_row (ok near) e = (near, refl, cell_right-IsRow a near e)
    right_row (err f) e = cc

Rows-get :
    (a j : ℕ) (table : List (List ℕ))
    → Rows a table
    → j < length table
    → IsRow (a + j) (get_or table j [])
Rows-get a j [] rows h = absurd (omega arith)
Rows-get a zero (near ∷ table) (row, rows) h = let e : a + 0 ≡ a = omega arith in rw e row
Rows-get a (suc j) (near ∷ table) (row, rows) h =
    let e : a + suc j ≡ (a + 1) + j = omega arith in
    rw e (Rows-get (a + 1) j table rows (omega arith))

-- A table with the rows of the whole board.
pub record IsBoardTable (table : List (List ℕ)) : Type 0 where
  pub number : length table ≡ n_cells
  pub row : (a : ℕ) → a < n_cells → IsRow a (get_or table a [])

board_table : (table : List (List ℕ)) → length table ≡ n_cells → Rows 0 table → IsBoardTable table
board_table table number rows = record {
  number = number;
  row = λ a lt.
      let e : 0 + a ≡ a = omega arith in
      subst (λ c. IsRow c (get_or table a [])) e (Rows-get 0 a table rows (omega (arith, number)));
}

init_neighbors-IsBoardTable :
    (table : List (List ℕ)) × (init_neighbors ≡ ok table) × IsBoardTable table
unfolding init_neighbors
init_neighbors-IsBoardTable =
    let (table, made, number, rows) = init_from-Rows n_cells 0 all_right_lem in
    (table, made, board_table table number rows)

-- No assertion of init_neighbors fails, every cell of the board has 20 neighbours, and a cell of
-- the board is a neighbour of another exactly if the two are different and share a row, a column
-- or a box.
pub init_neighbors_right :
    (a b : ℕ)
    → a < n_cells
    → b < n_cells
    → (table : List (List ℕ)) × (init_neighbors ≡ ok table)
      × (length (get_or table a []) ≡ n_neighbors)
      × (member b (get_or table a []) ≡ related a b)
init_neighbors_right a b ha hb =
    let (table, made, rows) = init_neighbors-IsBoardTable in
    (table, made, (rows.row a ha).number, (rows.row a ha).right b hb)

pub made-IsBoardTable : (table : List (List ℕ)) → init_neighbors ≡ ok table → IsBoardTable table
made-IsBoardTable table e =
    let (made, e1, right) = init_neighbors-IsBoardTable in
    subst IsBoardTable (ok-injective (sym e1 ∙ e)) right

get_or-out : (table : List (List ℕ)) (a : ℕ) → length table ≤ a → get_or table a [] ≡ []
get_or-out [] a h = refl
get_or-out (r ∷ table) zero h = absurd (omega arith)
get_or-out (r ∷ table) (suc a) h = get_or-out table a (omega arith)

member-below : (near : List ℕ) (b : ℕ) → below near ≡ true → n_cells ≤ b → member b near ≡ false
member-below [] b h le = refl
member-below (c ∷ near) b h le =
    let (here, later) = and-true (ltb c n_cells) (below near) h in
    let rest = member-below near b later le in ground (arith, here, rest)

member-past :
    (table : List (List ℕ)) (a b : ℕ)
    → IsBoardTable table
    → n_cells ≤ a
    → member b (get_or table a []) ≡ false
member-past table a b t h =
    let n = t.number in
    let e : get_or table a [] ≡ [] = get_or-out table a (omega (arith, n)) in rw e

pub member-outside :
    (table : List (List ℕ)) (a b : ℕ)
    → IsBoardTable table
    → (n_cells ≤ a) ⊎ (n_cells ≤ b)
    → member b (get_or table a []) ≡ false
member-outside table a b t (inl h) = member-past table a b t h
member-outside table a b t (inr h) = elim (Bool-cases (ltb a n_cells)) [
  | inl e ↦ member-below (get_or table a []) b (t.row a (ground arith)).inside h
  | inr e ↦ member-past table a b t (ground arith)
]

pub related-sym : (a b : ℕ) → related a b ≡ related b a
related-sym a b = ground arith

pub not_related : (a : ℕ) → related a a ≡ false
not_related a = ground arith
