-- ===== src/Sudoku/Search.antt =====
-- The search for the space with the least arity (sudoku_min_arity.cc): it does not fail, and it only
-- swaps spaces that are still to be filled.
use cloud_computing_lab.Base.{
  subst, ℕ, zero, suc, ◌+◌, ◌-◌, ◌<◌, ◌≤◌, ◌≡◌, refl, ◌∙◌, Bool, true, false, List, [], ◌∷◌, Result,
  ok, arith, ◌==◌, ltb, set, length, length-set, drop, replicate, Bool-cases, inl, inr, and-true,
}
use cloud_computing_lab.Sudoku.Neighbors.{n_cells}
use cloud_computing_lab.Sudoku.Table.{IsBoardTable, IsRow, below}
use cloud_computing_lab.Sudoku.Solver.{
  State, Table, at, arity, occupy, count_false, search_min, swap_spaces, find_min_arity, Choose,
  choose_none,
}
use cloud_computing_lab.Sudoku.Backtrack.{at-row}
use cloud_computing_lab.Sudoku.Spaces.{count, at-total, at-set_ne, count-swap}

-- A board of N cells with values up to 9.
pub record IsBoard (board : List ℕ) : Type 0 where
  pub cells : length board ≡ n_cells
  pub values : (c v : ℕ) → at board c ≡ ok v → v ≤ 9

abbrev Total {ℓ} : {A : Type ℓ} → Result A → Type ℓ
Total {A = A} r = (a : A) × (r ≡ ok a)

occupy-total :
    (board near : List ℕ) (occupied : List Bool)
    → IsBoard board
    → below near ≡ true
    → length occupied ≡ 10
    → (o : List Bool) × (occupy board near occupied ≡ ok o) × (length o ≡ 10)
unfolding occupy
occupy-total board [] occupied b h l = (occupied, refl, l)
occupy-total board (n ∷ near) occupied b h l =
    let (here, later) = and-true (ltb n n_cells) (below near) h in
    let cells = b.cells in
    let (v, ev) = at-total board n (ground arith) in
    let small = b.values n v ev in
    let (seen, es) = at-total occupied v (omega (arith, l, small)) in
    let (o, eo, lo) =
      occupy-total board near (set occupied v true) b later (length-set occupied v true ∙ l) in
    (o, rw (ev, es) eo, lo)

pub at-IsRow :
    (table : Table) (cell : ℕ)
    → IsBoardTable table
    → cell < n_cells
    → (near : List ℕ) × (at table cell ≡ ok near) × IsRow cell near
at-IsRow table cell t lt =
    let number = t.number in
    let (near, found) = at-total table cell (omega (arith, number)) in
    (near, found, subst (IsRow cell) (at-row table cell near found) (t.row cell lt))

arity-Total :
    (table : Table) (board : List ℕ) (cell : ℕ)
    → IsBoardTable table
    → IsBoard board
    → cell < n_cells
    → Total (arity table board cell)
unfolding arity
arity-Total table board cell t b lt =
    let (near, found, row) = at-IsRow table cell t lt in
    let (o, eo, lo) = occupy-total board near (replicate 10 false) b row.inside refl in
    counted near o found eo
  where
    counted :
        (near : List ℕ) (o : List Bool)
        → at table cell ≡ ok near
        → occupy board near (replicate 10 false) ≡ ok o
        → Total (arity table board cell)
    counted near [] found eo = (0, rw (found, eo))
    counted near (first ∷ digits) found eo = (count_false digits, rw (found, eo))

-- The spaces from `k` on are cells of the board.
abbrev pub OnBoard : ℕ → List ℕ → Type 0
OnBoard k spaces = (j c : ℕ) → k ≤ j → at spaces j ≡ ok c → c < n_cells

pub search_min_step :
    (left : ℕ) (table : Table) (s : State) (sp min_space min_arity cell cur : ℕ)
    → ltb 1 min_arity ≡ true
    → at s.spaces sp ≡ ok cell
    → arity table s.board cell ≡ ok cur
    → search_min (suc left) table s sp min_space min_arity ≡ elim (ltb cur min_arity) [
      | true ↦ search_min left table s (sp + 1) sp cur
      | false ↦ search_min left table s (sp + 1) min_space min_arity
    ]
unfolding search_min
search_min_step left table s sp min_space min_arity cell cur many ec ea = rw (many, ec, ea) refl

search_min-total :
    (left : ℕ) (table : Table) (s : State) (k sp min_space min_arity : ℕ)
    → IsBoardTable table
    → IsBoard s.board
    → OnBoard k s.spaces
    → sp + left ≤ length s.spaces
    → (k ≤ sp) × (k ≤ min_space) × (min_space < length s.spaces)
    → (j : ℕ) × (search_min left table s sp min_space min_arity ≡ ok j)
      × (k ≤ j)
      × (j < length s.spaces)
unfolding search_min
search_min-total zero table s k sp min_space min_arity t b on le (lo, lm, lt) =
    (min_space, refl, lm, lt)
search_min-total (suc left) table s k sp min_space min_arity t b on le (lo, lm, lt) =
    elim (Bool-cases (ltb 1 min_arity)) [
      | inr few ↦ (min_space, rw few, lm, lt)
      | inl many ↦
          let (cell, ec) = at-total s.spaces sp (omega (arith, le)) in
          let (cur, ea) = arity-Total table s.board cell t b (on sp cell lo ec) in
          elim (Bool-cases (ltb cur min_arity)) [
            | inl better ↦
                let (j, ej, lj, jn) =
                  search_min-total left table s k (sp + 1) sp cur t b on (omega (arith, le))
                    (omega (arith, lo), lo, omega (arith, le)) in
                (
                  j,
                  search_min_step left table s sp min_space min_arity cell cur many ec ea
                      ∙ rw better ej,
                  lj,
                  jn,
                )
            | inr same ↦
                let (j, ej, lj, jn) =
                  search_min-total left table s k (sp + 1) min_space min_arity t b on
                    (omega (arith, le)) (omega (arith, lo), lm, lt) in
                (
                  j,
                  search_min_step left table s sp min_space min_arity cell cur many ec ea
                      ∙ rw same ej,
                  lj,
                  jn,
                )
          ]
    ]

-- What the choice of a space may do: it permutes the spaces that are left.
pub record Chosen (s : State) (k : ℕ) (s1 : State) : Type 0 where
  pub same_board : s1.board ≡ s.board
  pub same_length : length s1.spaces ≡ length s.spaces
  pub same_rest : (c : ℕ) → count c (drop k s1.spaces) ≡ count c (drop k s.spaces)
  pub same_before : (i : ℕ) → i < k → at s1.spaces i ≡ at s.spaces i

abbrev pub Chooses : Choose → Type 0
Chooses choose =
    (s : State) (k : ℕ)
    → IsBoard s.board
    → OnBoard k s.spaces
    → k < length s.spaces
    → (s1 : State) × (choose s k ≡ ok s1) × Chosen s k s1

pub choose_none-Chooses : Chooses choose_none
choose_none-Chooses s k b on lt = (
  s,
  refl,
  record {
    same_board = refl;
    same_length = refl;
    same_rest = λ c. refl;
    same_before = λ i h. refl;
  },
)

pub find_min_arity-Chooses : (table : Table) → IsBoardTable table → Chooses (find_min_arity table)
unfolding find_min_arity swap_spaces
find_min_arity-Chooses table t s k b on lt =
    let (cell, ec) = at-total s.spaces k lt in
    let (n, en) = arity-Total table s.board cell t b (on k cell (omega arith) ec) in
    let (j, ej, lj, jn) =
      search_min-total (length s.spaces - (k + 1)) table s k (k + 1) k n t b on (omega (arith, lt))
        (omega arith, omega arith, lt) in
    elim (Bool-cases (k == j)) [
      | inl here ↦ (
        s,
        rw (ec, en, ej, here),
        record {
          same_board = refl;
          same_length = refl;
          same_rest = λ c. refl;
          same_before = λ i h. refl;
        },
      )
      | inr there ↦
          let (a, ea) = at-total s.spaces j jn in
          (
            record s { spaces = set (set s.spaces j cell) k a },
            rw (ec, en, ej, there, ea),
            record {
              same_board = refl;
              same_length = length-set (set s.spaces j cell) k a ∙ length-set s.spaces j cell;
              same_rest = λ c.
                  count-swap s.spaces k j k a cell c ea ec (λ e. ground arith) lj (omega arith);
              same_before = λ i h.
                  at-set_ne (set s.spaces j cell) k i a (λ e. omega arith)
                  ∙ at-set_ne s.spaces j i cell (λ e. omega arith);
            },
          )
    ]
