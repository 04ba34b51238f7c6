-- ===== src/Dance/Links.antt =====
-- The links of the nodes, and `cover` and `uncover` of
-- lab1/src/Sudoku/TearcherCode/sudoku_dancing_links.cc. A pointer is the index of its node in `nodes_`.
use cloud_computing_lab.Base.{
  ℕ, zero, suc, true, false, Option, none, some, if◌then◌else◌, ◌==◌, ℤ, decrement, increment,
}

-- The fields of every node.
pub record Links : Type 0 where
  pub left : ℕ → ℕ
  pub right : ℕ → ℕ
  pub up : ℕ → ℕ
  pub down : ℕ → ℕ
  pub col : ℕ → ℕ
  pub size : ℕ → ℤ

-- `p->field = v;`
abbrev pub write {ℓ} : {A : Type ℓ} → (ℕ → A) → ℕ → A → ℕ → A
write field p v x = if x == p then v else field x

-- `j->down->up = j->up; j->up->down = j->down; j->col->size--;`
unfoldable pub hide : Links → ℕ → Links
hide m j =
    let m1 : Links = record m { up = write m.up (m.down j) (m.up j) } in
    let m2 : Links = record m1 { down = write m1.down (m1.up j) (m1.down j) } in
    record m2 { size = write m2.size (m2.col j) (decrement (m2.size (m2.col j))) }

-- `j->col->size++; j->down->up = j; j->up->down = j;`
unfoldable pub show : Links → ℕ → Links
show m j =
    let m1 : Links = record m { size = write m.size (m.col j) (increment (m.size (m.col j))) } in
    let m2 : Links = record m1 { up = write m1.up (m1.down j) j } in
    record m2 { down = write m2.down (m2.up j) j }

-- A loop that runs out of rounds gives nothing.
infixl 5 ◌>>=◌
abbrev pub ◌>>=◌ : {A B : Type 0} → Option A → (A → Option B) → Option B
none >>= f = none
some a >>= f = f a

-- The loop over `j` of `cover`, from a node on.
unfoldable pub hide_row : ℕ → Links → ℕ → ℕ → Option Links
unfolding hide
hide_row zero m row j = none
hide_row (suc rounds) m row j = elim (j == row) [
  | true ↦ some m
  | false ↦ hide_row rounds (hide m j) row ((hide m j).right j)
]

-- The loop over `row` of `cover`, from a node on; each loop has `limit` rounds at most.
unfoldable pub hide_rows : ℕ → ℕ → Links → ℕ → ℕ → Option Links
unfolding hide_row
hide_rows limit zero m c row = none
hide_rows limit (suc rounds) m c row = elim (row == c) [
  | true ↦ some m
  | false ↦ do m1 ← hide_row limit m row (m.right row); hide_rows limit rounds m1 c (m1.down row)
]

-- `c->right->left = c->left; c->left->right = c->right;`
unfoldable pub unlink : Links → ℕ → Links
unlink m c =
    let m1 : Links = record m { left = write m.left (m.right c) (m.left c) } in
    record m1 { right = write m1.right (m1.left c) (m1.right c) }

unfoldable pub cover : ℕ → Links → ℕ → Option Links
unfolding unlink hide_rows
cover limit m c = let m1 = unlink m c in hide_rows limit limit m1 c (m1.down c)

-- The loop over `j` of `uncover`, from a node on, with what it does to a node.
unfoldable pub show_row : (Links → ℕ → Links) → ℕ → Links → ℕ → ℕ → Option Links
show_row back zero m row j = none
show_row back (suc rounds) m row j = elim (j == row) [
  | true ↦ some m
  | false ↦ show_row back rounds (back m j) row ((back m j).left j)
]

-- The loop over `row` of `uncover`, from a node on.
unfoldable pub show_rows : (Links → ℕ → Links) → ℕ → ℕ → Links → ℕ → ℕ → Option Links
unfolding show_row
show_rows back limit zero m c row = none
show_rows back limit (suc rounds) m c row = elim (row == c) [
  | true ↦ some m
  | false ↦ do
    m1 ← show_row back limit m row (m.left row)
    show_rows back limit rounds m1 c (m1.up row)
]

-- `c->right->left = c; c->left->right = c;`
unfoldable pub relink : Links → ℕ → Links
relink m c =
    let m1 : Links = record m { left = write m.left (m.right c) c } in
    record m1 { right = write m1.right (m1.left c) c }

-- `uncover` by what it does to a node and, at the end, to the header.
unfoldable pub uncover_by : (Links → ℕ → Links) → (Links → ℕ → Links) → ℕ → Links → ℕ → Option Links
unfolding show_rows
uncover_by back head limit m c = do m1 ← show_rows back limit limit m c (m.up c); some (head m1 c)

unfoldable pub uncover : ℕ → Links → ℕ → Option Links
unfolding uncover_by show relink
uncover = uncover_by show relink
