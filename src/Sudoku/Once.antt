-- ===== src/Sudoku/Once.antt =====
-- When `solved` of neighbor.cc finds each digit once in each group of cells.
use cloud_computing_lab.Base.{
  ℕ, zero, suc, ◌+◌, ◌<◌, ◌≤◌, ◌≡◌, ◌↔◌, ◌∙◌, refl, sym, ap, Bool, true, false, ◌&&◌, and-true,
  List, [], ◌∷◌, ok, arith, Result, ◌>>=◌, ltb, leb, leb→le, ◌==◌, ==_iff, get_or, replicate,
  length, Bool-cases, inl, inr, All, set,
}
use mathlib.Core.Path.{fun_ext}
use cloud_computing_lab.Sudoku.Neighbors.{num, n_cells, member, assert}
use cloud_computing_lab.Sudoku.Table.{below}
use cloud_computing_lab.Sudoku.Solver.{at}
use cloud_computing_lab.Sudoku.Backtrack.{at-get_or}
use cloud_computing_lab.Sudoku.Solved.{
  solved, tally, tally_row, each_once, count_ones, no_occurs, rows_from, cols_from, boxes,
}
use cloud_computing_lab.Sudoku.Tally.{
  IsFilled, Differ, hits, hits-member, hits_once, two_hits, sum, IsTally, tally_lem,
}
use cloud_computing_lab.Sudoku.Groups.{IsGroup, rows-IsGroup, cols-IsGroup, boxes-IsGroup}

count_ones_le : (ns : List ℕ) → count_ones ns ≤ length ns
unfolding count_ones
count_ones_le [] = omega arith
count_ones_le (n ∷ ns) = let rest = count_ones_le ns in ground (arith, rest)

-- As many ones as entries.
all_ones : (ns : List ℕ) (i : ℕ) → count_ones ns ≡ length ns → i < length ns → get_or ns i 0 ≡ 1
unfolding count_ones
all_ones [] i h lt = absurd (omega arith)
all_ones (n ∷ ns) zero h lt = let rest = count_ones_le ns in ground (arith, rest, h)
all_ones (n ∷ ns) (suc i) h lt =
    let rest = count_ones_le ns in
    let e : count_ones ns ≡ length ns = ground (arith, rest, h) in all_ones ns i e (omega arith)

small_ones : (ns : List ℕ) → ((i : ℕ) → get_or ns i 0 ≤ 1) → count_ones ns ≡ sum ns
unfolding count_ones sum
small_ones [] h = refl
small_ones (n ∷ ns) h =
    let rest = small_ones ns (λ i. h (suc i)) in
    let here : n ≤ 1 = h 0 in ground (arith, rest, here)

nothing_yet : (n d : ℕ) → get_or {A = ℕ} (replicate n 0) d 0 ≡ 0
nothing_yet zero d = refl
nothing_yet (suc n) zero = refl
nothing_yet (suc n) (suc d) = nothing_yet n d

pub member-below_lt :
    (cells : List ℕ) (a : ℕ) → below cells ≡ true → member a cells ≡ true → a < n_cells
member-below_lt [] a h m = cc
member-below_lt (c ∷ cells) a h m =
    let (here, later) = and-true (ltb c n_cells) (below cells) h in
    elim (Bool-cases (c == a)) [
      | inl same ↦ ground (arith, here, same)
      | inr differ ↦ member-below_lt cells a later (rw differ at m)
    ]

pub value_of :
    (board : List ℕ) (a : ℕ)
    → IsFilled board
    → a < n_cells
    → (1 ≤ get_or board a 0) × (get_or board a 0 ≤ 9)
value_of board a f lt =
    let (v, ev, low, high) = f a lt in
    let e = (at-get_or board a v 0 ev).0 in (omega (arith, e, low), omega (arith, e, high))

-- No cell of a group holds 0.
no_zero : (board cells : List ℕ) → IsFilled board → below cells ≡ true → hits board 0 cells ≡ 0
no_zero board cells f inside = elim (Bool-cases (leb 1 (hits board 0 cells))) [
  | inl more ↦
      let (a, in_group, held) = hits-member board 0 cells (leb→le 1 _ more) in
      let low = (value_of board a f (member-below_lt cells a inside in_group)).0 in
      absurd (omega (arith, low, held))
  | inr none ↦ ground (arith, none)
]

ones-Differ :
    (board cells after : List ℕ)
    → IsFilled board
    → IsGroup cells
    → IsTally board cells no_occurs after
    → count_ones after ≡ num
    → Differ board cells
unfolding count_ones
ones-Differ board cells [] f g t ones a b ma mb ne e = let n = t.number in absurd (omega (arith, n))
ones-Differ board cells (o ∷ rest) f g t ones a b ma mb ne e =
    let n = t.number in
    let first = t.entry 0 in
    let z = no_zero board cells f g.inside in
    let full : count_ones rest ≡ length rest = ground (arith, n, first, z, ones) in
    let (low, high) = value_of board a f (member-below_lt cells a g.inside ma) in
    let entry = t.entry (get_or board a 0) in
    let before = nothing_yet 10 (get_or board a 0) in
    let twice = two_hits board a b cells ma mb ne e in
    one_at (get_or board a 0) low high full n (omega (arith, entry, before, twice))
  where
    one_at :
        (d : ℕ)
        → 1 ≤ d
        → d ≤ 9
        → count_ones rest ≡ length rest
        → length (o ∷ rest) ≡ 10
        → 2 ≤ get_or (o ∷ rest) d 0
        → ⊥
    one_at zero low high full n more = omega (arith, low)
    one_at (suc d) low high full n more =
        let one = all_ones rest d full (omega (arith, n, high)) in omega (arith, one, more)

Differ-ones :
    (board cells after : List ℕ)
    → IsGroup cells
    → IsTally board cells no_occurs after
    → Differ board cells
    → count_ones after ≡ num
unfolding sum
Differ-ones board cells after g t differ =
    let n = g.number in
    let total = t.total in
    let small : (i : ℕ) → get_or after i 0 ≤ 1 = λ i.
      let entry = t.entry i in
      let before = nothing_yet 10 i in
      let once = hits_once board i cells g.distinct differ in omega (arith, entry, before, once) in
    let e = small_ones after small in omega (arith, e, total, n)

-- Where all values are digits, the loop over the rows is the loop over the columns.
tally_row_lem :
    (board cells occurs : List ℕ)
    → IsFilled board
    → below cells ≡ true
    → tally_row board cells occurs ≡ tally board cells occurs
unfolding tally tally_row assert
tally_row_lem board [] occurs f inside = refl
tally_row_lem board (c ∷ cells) occurs f inside =
    let (here, later) = and-true (ltb c n_cells) (below cells) inside in
    let (v, ev, low, high) = f c (ground (arith, here)) in
    let digit : (leb 1 v && leb v num) ≡ true = ground (arith, low, high) in
    rw (ev, digit)
      (ap (λ k. at occurs v >>= k)
        (fun_ext (λ n. tally_row_lem board cells (set occurs v (n + 1)) f later)))

-- A way to count a group that is `tally` on a group of cells of the board.
abbrev Counts : List ℕ → (List ℕ → List ℕ → Result (List ℕ)) → Type 0
Counts board count =
    (cells : List ℕ) → below cells ≡ true → count cells no_occurs ≡ tally board cells no_occurs

each_once_step :
    (count : List ℕ → List ℕ → Result (List ℕ)) (cells after : List ℕ) (groups : List (List ℕ))
    → count cells no_occurs ≡ ok after
    → each_once count (cells ∷ groups)
      ≡ (elim (count_ones after == num) [ true ↦ each_once count groups | false ↦ ok false ])
unfolding each_once
each_once_step count cells after groups ran = rw ran refl

each_once_lem :
    (board : List ℕ) (count : List ℕ → List ℕ → Result (List ℕ)) (groups : List (List ℕ))
    → IsFilled board
    → Counts board count
    → All IsGroup groups
    → (b : Bool) × (each_once count groups ≡ ok b) × ((b ≡ true) ↔ All (Differ board) groups)
unfolding each_once
each_once_lem board count [] f k h = (true, refl, (λ e. tt, λ e. refl))
each_once_lem board count (cells ∷ groups) f k (g, gs) =
    let (after, made, t) = tally_lem board cells no_occurs f g.inside refl in
    let step = each_once_step count cells after groups (k cells g.inside ∙ made) in
    elim (Bool-cases (count_ones after == num)) [
      | inl same ↦
          let (b, rest, means) = each_once_lem board count groups f k gs in
          let here = ones-Differ board cells after f g t ((==_iff (count_ones after) num).0 same) in
          (b, step ∙ rw same rest, (λ e. (here, means.0 e), λ (_, all). means.1 all))
      | inr other ↦ (
        false,
        step ∙ rw other refl,
        (λ e. cc, λ (here, all). ground (arith, other, Differ-ones board cells after g t here)),
      )
    ]

-- No two cells of a row, a column or a box with one digit.
abbrev pub AllDiffer : List ℕ → Type 0
AllDiffer board =
    All (Differ board) (rows_from num 0)
    × All (Differ board) (cols_from num 0)
    × All (Differ board) boxes

pub solved_lem :
    (board : List ℕ)
    → IsFilled board
    → (b : Bool) × (solved board ≡ ok b) × ((b ≡ true) ↔ AllDiffer board)
unfolding solved
solved_lem board f =
    let (rb, rows, mr) =
      each_once_lem board (tally_row board) (rows_from num 0) f
        (λ cells h. tally_row_lem board cells no_occurs f h) rows-IsGroup in
    let (cb, cols, mc) =
      each_once_lem board (tally board) (cols_from num 0) f (λ cells h. refl) cols-IsGroup in
    let (bb, boxed, mb) =
      each_once_lem board (tally board) boxes f (λ cells h. refl) boxes-IsGroup in
    elim (Bool-cases rb) [
      | inl r ↦ elim (Bool-cases cb) [
        | inl c ↦
            (bb, rw (rows, r, cols, c) boxed, (λ e. (mr.0 r, mc.0 c, mb.0 e), λ (_, _, h). mb.1 h))
        | inr c ↦ (false, rw (rows, r, cols, c) refl, (λ e. cc, λ (_, h, _). sym c ∙ mc.1 h))
      ]
      | inr r ↦ (false, rw (rows, r) refl, (λ e. cc, λ (h, _, _). sym r ∙ mr.1 h))
    ]
