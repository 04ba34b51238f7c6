-- ===== src/Dance/Dlx.antt =====
-- lab1/src/Sudoku/DLX.h: the dancing links of the programs with threads, whose arrays are functions of
-- the node here. `L`, `R`, `U`, `D`, `col` and `siz` are the fields of Links.
use cloud_computing_lab.Base.{
  ℕ, zero, suc, ◌+◌, ◌-◌, ◌*◌, ◌/◌, ◌%◌, Bool, true, false, Option, none, some, if◌then◌else◌, ◌==◌,
  ℤ, pos, increment,
}
use cloud_computing_lab.Sudoku.Cache.{int_lt}
use cloud_computing_lab.Dance.Links.{Links, write, ◌>>=◌, cover, uncover_by}

pub record Dlx : Type 0 where
  pub links : Links
  pub row : ℕ → ℕ
  pub first : ℕ → ℕ
  pub tot : ℕ
  pub stk : ℕ → ℕ
  pub ans : ℕ → ℕ → ℤ

-- The loop of `build` from `i` on, with so many rounds left. The -1 that it writes to L[0] is
-- overwritten behind the loop.
unfoldable pub build_headers : ℕ → ℕ → Links → Links
build_headers zero i m = m
build_headers (suc left) i m = build_headers left (i + 1) (record m {
  left = write m.left i (i - 1);
  right = write m.right i (i + 1);
  up = write m.up i i;
  down = write m.down i i;
})

unfoldable pub build : ℕ → ℕ → Dlx → Dlx
unfolding build_headers
build r c s =
    let m = build_headers (c + 1) 0 s.links in
    record s {
      links = record m { left = write m.left 0 c; right = write m.right c 0; size = λ x. pos 0 };
      first = λ x. 0;
      tot = c;
    }

-- The first line of `insert` but for `row`: a node at the top of a column.
unfoldable pub insert_below : ℕ → ℕ → Links → Links
insert_below t c m0 =
    let m1 : Links = record m0 {
      col = write m0.col t c;
      size = write m0.size c (increment (m0.size c));
    } in
    let m2 : Links = record m1 { down = write m1.down t (m1.down c) } in
    let m3 : Links = record m2 { up = write m2.up (m2.down c) t } in
    let m4 : Links = record m3 { up = write m3.up t c } in record m4 { down = write m4.down c t }

-- `L[tot] = R[tot] = tot`
unfoldable pub insert_first : ℕ → Links → Links
insert_first t m = record m { left = write m.left t t; right = write m.right t t }

-- The else branch of `insert`, with `f` for `first[r]`.
unfoldable pub insert_beside : ℕ → ℕ → Links → Links
insert_beside t f m0 =
    let m1 : Links = record m0 { right = write m0.right t (m0.right f) } in
    let m2 : Links = record m1 { left = write m1.left (m1.right f) t } in
    let m3 : Links = record m2 { left = write m2.left t f } in
    record m3 { right = write m3.right f t }

unfoldable pub insert : ℕ → ℕ → Dlx → Dlx
unfolding insert_below insert_first insert_beside
insert r c s =
    let t = s.tot + 1 in
    let m = insert_below t c s.links in
    let s1 : Dlx = record s { tot = t; row = write s.row t r } in
    if s.first r == 0
    then record s1 { links = insert_first t m; first = write s.first r t }
    else record s1 { links = insert_beside t (s.first r) m }

-- `remove` has the statements of `cover`.
unfoldable pub remove : ℕ → Links → ℕ → Option Links
unfolding cover
remove = cover

-- `U[D[j]] = D[U[j]] = j, ++siz[col[j]];`, the assignment on the right first
unfoldable pub restore : Links → ℕ → Links
restore m j =
    let m1 : Links = record m { down = write m.down (m.up j) j } in
    let m2 : Links = record m1 { up = write m1.up (m1.down j) j } in
    record m2 { size = write m2.size (m2.col j) (increment (m2.size (m2.col j))) }

-- `L[R[c]] = R[L[c]] = c;`, the assignment on the right first
unfoldable pub restore_header : Links → ℕ → Links
restore_header m c =
    let m1 : Links = record m { right = write m.right (m.left c) c } in
    record m1 { left = write m1.left (m1.right c) c }

unfoldable pub recover : ℕ → Links → ℕ → Option Links
unfolding uncover_by restore restore_header
recover = uncover_by restore restore_header

-- The loop that looks for the smallest column from `i` on: the smallest so far.
unfoldable pub smallest_from : ℕ → Links → ℕ → ℕ → Option ℕ
smallest_from zero m i c = none
smallest_from (suc rounds) m i c = elim (i == 0) [
  | true ↦ some c
  | false ↦ smallest_from rounds m (m.right i) (if int_lt (m.size i) (m.size c) then i else c)
]

-- The row, the column and the digit of a row of the matrix.
abbrev pub row_of : ℕ → ℕ
row_of id = (id - 1) / 9 / 9 + 1

abbrev pub col_of : ℕ → ℕ
col_of id = (id - 1) / 9 % 9 + 1

abbrev pub digit_of : ℕ → ℕ
digit_of id = (id - 1) % 9 + 1

-- `ans[x][y] = v;`
abbrev pub put_answer : ℕ → ℕ → ℕ → Dlx → Dlx
put_answer x y v s = record s { ans = write s.ans x (write (s.ans x) y (pos v)) }

-- The loop over the rows that were chosen, from `i` on, with so many left.
unfoldable pub write_answers : ℕ → ℕ → Dlx → Dlx
write_answers zero i s = s
write_answers (suc left) i s =
    let id = s.stk i in
    write_answers left (i + 1) (put_answer (row_of id) (col_of id) (digit_of id) s)

-- `for (j = R[i]; j != i; j = R[j]) remove(col[j]);` from a node on
unfoldable pub remove_others : ℕ → ℕ → Links → ℕ → ℕ → Option Links
unfolding remove
remove_others limit zero m i j = none
remove_others limit (suc rounds) m i j = elim (j == i) [
  | true ↦ some m
  | false ↦ do m1 ← remove limit m (m.col j); remove_others limit rounds m1 i (m1.right j)
]

-- `for (j = L[i]; j != i; j = L[j]) recover(col[j]);` from a node on
unfoldable pub recover_others : ℕ → ℕ → Links → ℕ → ℕ → Option Links
unfolding recover
recover_others limit zero m i j = none
recover_others limit (suc rounds) m i j = elim (j == i) [
  | true ↦ some m
  | false ↦ do m1 ← recover limit m (m.col j); recover_others limit rounds m1 i (m1.left j)
]

-- The loop of `dance` over the nodes of the column, from a node on.
unfoldable pub try_nodes :
    ℕ → (Dlx → Option (Bool × Dlx)) → ℕ → ℕ → Dlx → ℕ → ℕ → Option (Bool × Dlx)
unfolding remove_others recover_others
try_nodes limit again zero dep s c i = none
try_nodes limit again (suc rounds) dep s c i = elim (i == c) [
  | true ↦ do m ← recover limit s.links c; some (false, record s { links = m })
  | false ↦ do
    m1 ← remove_others limit limit s.links i (s.links.right i)
    (done, s1) ← again (record s { links = m1; stk = write s.stk dep (s.row i) })
    elim done [
      | true ↦ some (true, s1)
      | false ↦ do
        m2 ← recover_others limit limit s1.links i (s1.links.left i)
        try_nodes limit again rounds dep (record s1 { links = m2 }) c (m2.down i)
    ]
]

-- `dance`, with fuel for its depth and so many rounds for each loop.
unfoldable pub dance : ℕ → ℕ → ℕ → Dlx → Option (Bool × Dlx)
unfolding smallest_from write_answers try_nodes remove
dance limit zero dep s = none
dance limit (suc depth) dep s = elim (s.links.right 0 == 0) [
  | true ↦ some (true, write_answers (dep - 1) 1 s)
  | false ↦ do
    c ← smallest_from limit s.links (s.links.right 0) (s.links.right 0)
    m ← remove limit s.links c
    try_nodes limit (dance limit depth (dep + 1)) limit dep (record s { links = m }) c (m.down c)
]

unfoldable pub get_id : ℕ → ℕ → ℕ → ℕ
get_id row col num = (row - 1) * 9 * 9 + (col - 1) * 9 + num

-- The columns f1 to f4 of `Insert`
unfoldable pub columns_of : ℕ → ℕ → ℕ → ℕ × ℕ × ℕ × ℕ
columns_of row col num =
    let dx = (row - 1) / 3 + 1 in
    let dy = (col - 1) / 3 + 1 in
    let room = (dx - 1) * 3 + dy in
    (
      (row - 1) * 9 + num,
      81 + (col - 1) * 9 + num,
      81 * 2 + (room - 1) * 9 + num,
      81 * 3 + (row - 1) * 9 + col,
    )

-- `Insert`
unfoldable pub insert_candidate : ℕ → ℕ → ℕ → Dlx → Dlx
unfolding get_id columns_of insert
insert_candidate row col num s =
    let id = get_id row col num in
    let (f1, f2, f3, f4) = columns_of row col num in
    insert id f4 (insert id f3 (insert id f2 (insert id f1 s)))
