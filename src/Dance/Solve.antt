-- ===== src/Dance/Solve.antt =====
-- The search of lab1/src/Sudoku/TearcherCode/sudoku_dancing_links.cc.
use cloud_computing_lab.Base.{
  ℕ, zero, suc, ◌%◌, Bool, true, false, List, [], ◌∷◌, ◌++◌, Option, none, some, ok, err, ltb, ◌==◌,
  ℤ, pos, set,
}
use cloud_computing_lab.Sudoku.Cache.{int_lt}
use cloud_computing_lab.Dance.Links.{Links, ◌>>=◌, cover, uncover}
use cloud_computing_lab.Dance.Grid.{Dance, root, build}

-- The loop of `get_min_column` from `cc` on: the best column so far and its size.
unfoldable pub min_column_from : ℕ → Links → ℕ → ℕ → ℤ → Option ℕ
min_column_from zero m cc c min_size = none
min_column_from (suc rounds) m cc c min_size = elim (cc == root) [
  | true ↦ some c
  | false ↦ elim (int_lt (m.size cc) min_size) [
    | true ↦ elim (int_lt (pos 1) (m.size cc)) [
      | true ↦ min_column_from rounds m (m.right cc) cc (m.size cc)
      | false ↦ some cc
    ]
    | false ↦ min_column_from rounds m (m.right cc) c min_size
  ]
]

unfoldable pub get_min_column : ℕ → Links → Option ℕ
unfolding min_column_from
get_min_column limit m =
    let c = m.right root in
    elim (int_lt (pos 1) (m.size c)) [
      | true ↦ min_column_from limit m (m.right c) c (m.size c)
      | false ↦ some c
    ]

-- The while loop that reads the cell and the digit of a row: what is known of them so far.
unfoldable pub read_row : ℕ → Dance → ℕ → Option ℕ → Option ℕ → Option (ℕ × ℕ)
read_row zero d n cell val = none
read_row (suc rounds) d n (some c) (some v) = some (c, v)
read_row (suc rounds) d n cell val = elim (ltb (d.name n) 100) [
  | true ↦ read_row rounds d (d.links.right n) (some (d.name n)) val
  | false ↦ read_row rounds d (d.links.right n) cell (some (d.name n % 10))
]

-- The loop over the stack that writes the digits into the board.
unfoldable pub write_rows : ℕ → Dance → List ℕ → Option Dance
unfolding read_row
write_rows limit d [] = some d
write_rows limit d (n ∷ rest) = do
  (cell, val) ← read_row limit d n none none
  write_rows limit (record d { inout = set d.inout cell val }) rest

-- `for (Node* j = row->right; j != row; j = j->right) cover(j->col);` from a node on
unfoldable pub cover_others : ℕ → ℕ → Links → ℕ → ℕ → Option Links
unfolding cover
cover_others limit zero m row j = none
cover_others limit (suc rounds) m row j = elim (j == row) [
  | true ↦ some m
  | false ↦ do m1 ← cover limit m (m.col j); cover_others limit rounds m1 row (m1.right j)
]

-- `for (Node* j = row->left; j != row; j = j->left) uncover(j->col);` from a node on
unfoldable pub uncover_others : ℕ → ℕ → Links → ℕ → ℕ → Option Links
unfolding uncover
uncover_others limit zero m row j = none
uncover_others limit (suc rounds) m row j = elim (j == row) [
  | true ↦ some m
  | false ↦ do m1 ← uncover limit m (m.col j); uncover_others limit rounds m1 row (m1.left j)
]

-- `stack_.push_back(row);` and `stack_.pop_back();`
abbrev pub push : List ℕ → ℕ → List ℕ
push stack row = stack ++ row ∷ []

abbrev pub pop : List ℕ → List ℕ
pop [] = []
pop (x ∷ []) = []
pop (x ∷ y ∷ xs) = x ∷ pop (y ∷ xs)

-- The loop of `solve` over the rows of the column, from a row on.
unfoldable pub try_rows :
    ℕ → (Dance → Option (Bool × Dance)) → ℕ → Dance → ℕ → ℕ → Option (Bool × Dance)
unfolding cover_others uncover_others
try_rows limit again zero d col row = none
try_rows limit again (suc rounds) d col row = elim (row == col) [
  | true ↦ do m ← uncover limit d.links col; some (false, record d { links = m })
  | false ↦ do
    m1 ← cover_others limit limit d.links row (d.links.right row)
    (done, d1) ← again (record d { links = m1; stack = push d.stack row })
    elim done [
      | true ↦ some (true, d1)
      | false ↦ do
        m2 ← uncover_others limit limit d1.links row (d1.links.left row)
        try_rows limit again rounds (record d1 { links = m2; stack = pop d1.stack }) col
            (m2.down row)
    ]
]

-- `Dance::solve`, with fuel for its depth and so many rounds for each loop.
unfoldable pub solve : ℕ → ℕ → Dance → Option (Bool × Dance)
unfolding get_min_column write_rows try_rows cover
solve limit zero d = none
solve limit (suc depth) d = elim (d.links.left root == root) [
  | true ↦ do d1 ← write_rows limit d d.stack; some (true, d1)
  | false ↦ do
    col ← get_min_column limit d.links
    m ← cover limit d.links col
    try_rows limit (solve limit depth) limit (record d { links = m }) col (m.down col)
]

-- `solve_sudoku_dancing_links`; none stands for a failed assertion too.
unfoldable pub solve_sudoku_dancing_links : ℕ → List ℕ → Option (Bool × Dance)
unfolding build solve
solve_sudoku_dancing_links limit board = elim (build board) [
  | ok d ↦ solve limit limit d
  | err e ↦ none
]
