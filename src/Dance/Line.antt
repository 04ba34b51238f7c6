-- ===== src/Dance/Line.antt =====
-- A puzzle on a line in lab1/src/Sudoku/3.cpp: the body of the loop of `work_func`.
use cloud_computing_lab.Base.{
  ℕ, zero, suc, ◌+◌, ◌-◌, ◌*◌, Bool, true, false, not, ◌&&◌, [], ◌∷◌, ◌++◌, Option, none, some,
  Result, ok, ◌>>=◌, in_bounds, get_elem?, length, leb, ◌==◌, ℤ, pos, negsuc,
}
use cloud_computing_lab.Text.{Str}
use cloud_computing_lab.Dance.Links.{write}
use cloud_computing_lab.Dance.Dlx.{Dlx, build, insert_candidate, dance}

-- `str[i]`: behind the last character there is a 0, and further on nothing is defined.
unfoldable pub char_at : Str → ℕ → Result ℕ
char_at str i = elim (i == length str) [ true ↦ ok 0 | false ↦ in_bounds (get_elem? str i) ]

-- `c - '0'`
abbrev pub from_char : ℕ → ℤ
from_char c = elim (leb b'0' c) [ true ↦ pos (c - b'0') | false ↦ negsuc (b'0' - 1 - c) ]

-- `char(a + '0')`
abbrev pub to_char : ℤ → ℕ
to_char (pos n) = b'0' + n
to_char (negsuc n) = b'0' - (n + 1)

abbrev pub is_value : ℤ → ℕ → Bool
is_value (pos n) v = n == v
is_value (negsuc n) v = false

-- `ans[i][j] && ans[i][j] != v`
abbrev pub is_other : ℤ → ℕ → Bool
is_other a v = not (is_value a 0) && not (is_value a v)

-- The loop over `v`, with so many rounds left.
unfoldable pub insert_values : ℕ → ℕ → ℕ → ℕ → Dlx → Dlx
unfolding insert_candidate
insert_values zero i j v s = s
insert_values (suc left) i j v s = elim (is_other (s.ans i j) v) [
  | true ↦ insert_values left i j (v + 1) s
  | false ↦ insert_values left i j (v + 1) (insert_candidate i j v s)
]

-- The loop over `j`, with so many rounds left.
unfoldable pub load_row : ℕ → Str → ℕ → ℕ → Dlx → Result Dlx
unfolding char_at insert_values
load_row zero str i j s = ok s
load_row (suc left) str i j s = do
  c ← char_at str ((i - 1) * 9 + j - 1)
  let s1 : Dlx = record s { ans = write s.ans i (write (s.ans i) j (from_char c)) }
  load_row left str i (j + 1) (insert_values 9 i j 1 s1)

-- The loop over `i`, with so many rounds left.
unfoldable pub load : ℕ → Str → ℕ → Dlx → Result Dlx
unfolding load_row
load zero str i s = ok s
load (suc left) str i s = do s1 ← load_row 9 str i 1 s; load left str (i + 1) s1

-- The characters of a row of `ans` from `j` on, and of the rows from `i` on.
unfoldable pub row_chars : ℕ → (ℕ → ℤ) → ℕ → Str
row_chars zero row j = []
row_chars (suc left) row j = to_char (row j) ∷ row_chars left row (j + 1)

unfoldable pub board_chars : ℕ → (ℕ → ℕ → ℤ) → ℕ → Str
unfolding row_chars
board_chars zero ans i = []
board_chars (suc left) ans i = row_chars 9 (ans i) 1 ++ board_chars left ans (i + 1)

abbrev pub answer_of : Option (Bool × Dlx) → Option Str
unfolding board_chars
answer_of none = none
answer_of (some (done, s)) = some (board_chars 9 s.ans 1)

-- The line for a puzzle; `raw` is what is in the memory of `solver`. With `limit` for the depth and the
-- loops of `dance`, none stands for too few rounds.
unfoldable pub solve_line : ℕ → Dlx → Str → Result (Option Str)
unfolding build load dance
solve_line limit raw str = do
  s ← load 9 str 1 (build 729 324 raw)
  ok (answer_of (dance limit limit 1 s))
