-- ===== src/Dance/Grid.antt =====
-- The struct Dance of lab1/src/Sudoku/TearcherCode/sudoku_dancing_links.cc: the matrix of a puzzle, and
-- the search. A null pointer in `columns_` is `none`.
use cloud_computing_lab.Base.{
  ℕ, zero, suc, ◌+◌, ◌*◌, ◌/◌, ◌%◌, Bool, true, false, ◌||◌, List, [], ◌∷◌, Option, none, some,
  Result, ok, replicate, ◌>>=◌, ltb, ◌==◌, pos, increment,
}
use cloud_computing_lab.Sudoku.Neighbors.{assert, n_cells}
use cloud_computing_lab.Sudoku.Cache.{is_occupied, set_occupied}
use cloud_computing_lab.Dance.Links.{Links, write}

-- `kMaxNodes`
abbrev pub max_nodes : ℕ
max_nodes = 1 + 81 * 4 + 9 * 9 * 9 * 4

-- The node `root_`
abbrev pub root : ℕ
root = 0

pub record Dance : Type 0 where
  pub inout : List ℕ
  pub columns : ℕ → Option ℕ
  pub stack : List ℕ
  pub links : Links
  pub name : ℕ → ℕ
  pub cur_node : ℕ

-- The node that `new_column` and `new_row` take: all its links lead to itself.
unfoldable pub take_node : ℕ → Dance → Dance
take_node n d =
    let p = d.cur_node in
    record d {
      links = record {
        left = write d.links.left p p;
        right = write d.links.right p p;
        up = write d.links.up p p;
        down = write d.links.down p p;
        col = write d.links.col p p;
        size = write d.links.size p (pos 0);
      };
      name = write d.name p n;
      cur_node = p + 1;
    }

unfoldable pub new_column : ℕ → Dance → Result (ℕ × Dance)
unfolding assert take_node
new_column n d = assert (ltb d.cur_node max_nodes) (ok (d.cur_node, take_node n d))

-- `put_left`
unfoldable pub put_left : ℕ → ℕ → Links → Links
put_left old new m =
    let m1 : Links = record m { left = write m.left new (m.left old) } in
    let m2 : Links = record m1 { right = write m1.right new old } in
    let m3 : Links = record m2 { right = write m2.right (m2.left old) new } in
    record m3 { left = write m3.left old new }

-- `put_up`
unfoldable pub put_up : ℕ → ℕ → Links → Links
put_up old new m =
    let m1 : Links = record m { up = write m.up new (m.up old) } in
    let m2 : Links = record m1 { down = write m1.down new old } in
    let m3 : Links = record m2 { down = write m2.down (m2.up old) new } in
    let m4 : Links = record m3 { up = write m3.up old new } in
    let m5 : Links = record m4 { size = write m4.size old (increment (m4.size old)) } in
    record m5 { col = write m5.col new old }

abbrev is_none : Option ℕ → Bool
is_none none = true
is_none (some c) = false

unfoldable pub append_column : ℕ → Dance → Result Dance
unfolding assert new_column put_left
append_column n d = assert (is_none (d.columns n)) (do
  (c, d1) ← new_column n d
  ok (record d1 { links = put_left root c d1.links; columns = write d1.columns n (some c) }))

unfoldable pub new_row : ℕ → Dance → Result (ℕ × Dance)
unfolding assert take_node put_up
new_row n d = elim (d.columns n) [
  | none ↦ assert false (ok (0, d))
  | some c ↦ assert (ltb d.cur_node max_nodes) (
      let r = d.cur_node in
      let d1 = take_node n d in
      let m : Links = record d1.links { col = write d1.links.col r c } in
      ok (r, record d1 { links = put_up c r m }))
]

abbrev pub row_base : ℕ
row_base = 100

abbrev pub col_base : ℕ
col_base = 200

abbrev pub box_base : ℕ
box_base = 300

-- `get_row_col`, `get_col_col` and `get_box_col`
abbrev pub get_row_col : ℕ → ℕ → ℕ
get_row_col row val = row_base + row * 10 + val

abbrev pub get_col_col : ℕ → ℕ → ℕ
get_col_col col val = col_base + col * 10 + val

abbrev pub get_box_col : ℕ → ℕ → ℕ
get_box_col box val = box_base + box * 10 + val

-- The arrays `rows`, `cols` and `boxes` of the constructor.
pub record Seen : Type 0 where
  pub rows : List (List Bool)
  pub cols : List (List Bool)
  pub boxes : List (List Bool)

abbrev pub unseen : Seen
unseen =
    let nothing = replicate n_cells (replicate 10 false) in
    record { rows = nothing; cols = nothing; boxes = nothing }

abbrev pub box_of : ℕ → ℕ
box_of i = (i / 9) / 3 * 3 + (i % 9) / 3

-- The first loop of the constructor, from a cell on.
unfoldable pub see : ℕ → List ℕ → Seen → Result Seen
unfolding set_occupied
see i [] seen = ok seen
see i (val ∷ rest) seen = do
  rows ← set_occupied seen.rows (i / 9) val true
  cols ← set_occupied seen.cols (i % 9) val true
  boxes ← set_occupied seen.boxes (box_of i) val true
  see (i + 1) rest (record { rows = rows; cols = cols; boxes = boxes })

-- The second loop: a column for each empty cell.
unfoldable pub cell_columns : ℕ → List ℕ → Dance → Result Dance
unfolding append_column
cell_columns i [] d = ok d
cell_columns i (val ∷ rest) d = elim (val == 0) [
  | true ↦ do d1 ← append_column i d; cell_columns (i + 1) rest d1
  | false ↦ cell_columns (i + 1) rest d
]

-- `if (!seen[i][v]) append_column(n);`
unfoldable pub column_unless : List (List Bool) → ℕ → ℕ → ℕ → Dance → Result Dance
unfolding is_occupied append_column
column_unless seen i v n d = do
  taken ← is_occupied seen i v
  elim taken [ true ↦ ok d | false ↦ append_column n d ]

-- The loop over `v` of the third loop, with so many rounds left.
unfoldable pub digit_columns : ℕ → ℕ → ℕ → Seen → Dance → Result Dance
unfolding column_unless
digit_columns zero i v seen d = ok d
digit_columns (suc left) i v seen d = do
  d1 ← column_unless seen.rows i v (get_row_col i v) d
  d2 ← column_unless seen.cols i v (get_col_col i v) d1
  d3 ← column_unless seen.boxes i v (get_box_col i v) d2
  digit_columns left i (v + 1) seen d3

-- The third loop, with so many rounds left.
unfoldable pub unit_columns : ℕ → ℕ → Seen → Dance → Result Dance
unfolding digit_columns
unit_columns zero i seen d = ok d
unit_columns (suc left) i seen d = do
  d1 ← digit_columns 9 i 1 seen d
  unit_columns left (i + 1) seen d1

-- The four nodes of a digit in a cell.
unfoldable pub add_candidate : ℕ → ℕ → Dance → Result Dance
unfolding new_row put_left
add_candidate i v d = do
  (n0, d0) ← new_row i d
  (nr, d1) ← new_row (get_row_col (i / 9) v) d0
  (nc, d2) ← new_row (get_col_col (i % 9) v) d1
  (nb, d3) ← new_row (get_box_col (box_of i) v) d2
  ok (record d3 { links = put_left n0 nb (put_left n0 nc (put_left n0 nr d3.links)) })

-- The loop over `v` of the last loop, with so many rounds left.
unfoldable pub cell_candidates : ℕ → ℕ → ℕ → Seen → Dance → Result Dance
unfolding is_occupied add_candidate
cell_candidates zero i v seen d = ok d
cell_candidates (suc left) i v seen d = do
  in_row ← is_occupied seen.rows (i / 9) v
  in_col ← is_occupied seen.cols (i % 9) v
  in_box ← is_occupied seen.boxes (box_of i) v
  elim (in_row || (in_col || in_box)) [
    | true ↦ cell_candidates left i (v + 1) seen d
    | false ↦ do d1 ← add_candidate i v d; cell_candidates left i (v + 1) seen d1
  ]

-- The last loop of the constructor, from a cell on.
unfoldable pub candidates : ℕ → List ℕ → Seen → Dance → Result Dance
unfolding cell_candidates
candidates i [] seen d = ok d
candidates i (val ∷ rest) seen d = elim (val == 0) [
  | true ↦ do d1 ← cell_candidates 9 i 1 seen d; candidates (i + 1) rest seen d1
  | false ↦ candidates (i + 1) rest seen d
]

-- Before `root_` is made: no node, no column.
abbrev pub no_nodes : List ℕ → Dance
no_nodes inout =
    let same = λ (p : ℕ). p in
    record {
      inout = inout;
      columns = λ n. none;
      stack = [];
      links = record {
        left = same;
        right = same;
        up = same;
        down = same;
        col = same;
        size = λ p. pos 0;
      };
      name = λ p. 0;
      cur_node = 0;
    }

-- The constructor
unfoldable pub build : List ℕ → Result Dance
unfolding new_column see cell_columns unit_columns candidates
build inout = do
  (r, d0) ← new_column 0 (no_nodes inout)
  seen ← see 0 inout unseen
  d1 ← cell_columns 0 inout d0
  d2 ← unit_columns 9 0 seen d1
  candidates 0 inout seen d2
