-- ===== src/Sudoku/Cache/Choice.antt =====
-- `find_min_arity` of sudoku_min_arity_cache.cc chooses the space that sudoku_min_arity.cc chooses.
use cloud_computing_lab.Base.{
  ℕ, zero, suc, ◌+◌, ◌-◌, ◌<◌, ◌≤◌, ◌≡◌, refl, sym, ap, ◌∙◌, true, false, [], ok, arith, ◌>>=◌,
  if◌then◌else◌, ◌==◌, ltb, get_or, length, Bool-cases, inl, inr, ℤ, pos, ok-injective, >>=-eq-ok,
}
use cloud_computing_lab.Sudoku.Neighbors.{n_cells}
use cloud_computing_lab.Sudoku.Table.{IsBoardTable}
use cloud_computing_lab.Sudoku.Backtrack.{at-get_or}
use cloud_computing_lab.Sudoku.Spaces.{at-total, at-empty}
use cloud_computing_lab.Sudoku.Search.{search_min_step}
use cloud_computing_lab.Sudoku.Solver.{
  State, Table, at, arity, search_min, find_min_arity, swap_spaces,
}
use cloud_computing_lab.Sudoku.Ready.{IsReady}
use cloud_computing_lab.Sudoku.Agree.{count-at}
use cloud_computing_lab.Sudoku.Cache.{Cache, int_lt, search_cached, find_min_cached}
use cloud_computing_lab.Sudoku.Cache.Flags.{at-inside}
use cloud_computing_lab.Sudoku.Cache.Held.{count_free, arity_lem}
use cloud_computing_lab.Sudoku.Cache.Hold.{IsCached}

module _ (table : Table) (t : IsBoardTable table) where
  -- The arity of a space is the one that is counted.
  space_arity :
      (k j cell : ℕ) (c : Cache)
      → IsReady table k c.state
      → IsCached table c.state.board c.marks
      → k ≤ j
      → at c.state.spaces j ≡ ok cell
      → (n : ℕ) × (at c.marks.arity cell ≡ ok (pos n)) × (arity table c.state.board cell ≡ ok n)
  space_arity k j cell c r h le there =
      let named = count-at c.state.spaces k j cell le there in
      let one = r.covers cell in
      let empty = at-empty c.state.board cell (ground (arith, named, one)) in
      let (blank, within) = at-get_or c.state.board cell 0 1 empty in
      let cells = r.board.cells in
      let arities = h.marks.arities in
      let inside : cell < n_cells = omega (arith, cells, within) in
      (
        count_free c.state.board (get_or table cell []) 9 1,
        at-inside c.marks.arity cell (pos 0) (omega (arith, arities, inside))
            ∙ ap ok (h.counts cell blank),
        arity_lem table c.state.board cell t r.board inside,
      )

  search_cached_step :
      (left sp min_space cell : ℕ) (c : Cache) (n m : ℤ)
      → int_lt (pos 1) n ≡ true
      → at c.state.spaces sp ≡ ok cell
      → at c.marks.arity cell ≡ ok m
      → search_cached (suc left) c sp min_space n ≡ elim (int_lt m n) [
        | true ↦ search_cached left c (sp + 1) sp m
        | false ↦ search_cached left c (sp + 1) min_space n
      ]
  unfolding search_cached
  search_cached_step left sp min_space cell c n m many there cached = rw (many, there, cached) refl

  search_few :
      (left sp min_space n : ℕ) (c : Cache)
      → ltb 1 n ≡ false
      → search_cached (suc left) c sp min_space (pos n)
        ≡ search_min (suc left) table c.state sp min_space n
  unfolding search_cached search_min
  search_few left sp min_space n c few = rw few refl

  search_many :
      (left sp min_space n m cell : ℕ) (c : Cache)
      → ltb 1 n ≡ true
      → at c.state.spaces sp ≡ ok cell
      → at c.marks.arity cell ≡ ok (pos m)
      → arity table c.state.board cell ≡ ok m
      → search_cached left c (sp + 1) sp (pos m) ≡ search_min left table c.state (sp + 1) sp m
      → search_cached left c (sp + 1) min_space (pos n)
        ≡ search_min left table c.state (sp + 1) min_space n
      → search_cached (suc left) c sp min_space (pos n)
        ≡ search_min (suc left) table c.state sp min_space n
  search_many left sp min_space n m cell c many there cached counted better same =
      let one = search_cached_step left sp min_space cell c (pos n) (pos m) many there cached in
      let other = search_min_step left table c.state sp min_space n cell m many there counted in
      elim (Bool-cases (ltb m n)) [
        | inl less ↦ rw (one, other, less) better
        | inr more ↦ rw (one, other, more) same
      ]

  search_same :
      (left k sp min_space n : ℕ) (c : Cache)
      → IsReady table k c.state
      → IsCached table c.state.board c.marks
      → k ≤ sp
      → sp + left ≤ length c.state.spaces
      → search_cached left c sp min_space (pos n) ≡ search_min left table c.state sp min_space n
  unfolding search_cached search_min
  search_same zero k sp min_space n c r h le inside = refl
  search_same (suc left) k sp min_space n c r h le inside =
      let (cell, there) = at-total c.state.spaces sp (omega (arith, inside)) in
      let (m, cached, counted) = space_arity k sp cell c r h le there in
      let better =
        search_same left k (sp + 1) sp m c r h (omega (arith, le)) (omega (arith, inside)) in
      let same =
        search_same left k (sp + 1) min_space n c r h (omega (arith, le)) (omega (arith, inside)) in
      elim (Bool-cases (ltb 1 n)) [
        | inr few ↦ search_few left sp min_space n c few
        | inl many ↦ search_many left sp min_space n m cell c many there cached counted better same
      ]

  -- The same space is chosen.
  find_min_step :
      (k cell n j : ℕ) (c : Cache)
      → at c.state.spaces k ≡ ok cell
      → at c.marks.arity cell ≡ ok (pos n)
      → search_cached (length c.state.spaces - (k + 1)) c (k + 1) k (pos n) ≡ ok j
      → find_min_cached c k ≡ elim (k == j) [
        | true ↦ ok c
        | false ↦ swap_spaces c.state j k >>= λ s. ok (record { state = s; marks = c.marks })
      ]
  unfolding find_min_cached
  find_min_step k cell n j c there cached found = rw (there, cached, found) refl

  find_min_found :
      (k cell n j : ℕ) (c : Cache) (s1 : State)
      → at c.state.spaces k ≡ ok cell
      → at c.marks.arity cell ≡ ok (pos n)
      → search_cached (length c.state.spaces - (k + 1)) c (k + 1) k (pos n) ≡ ok j
      → (if k == j then ok c.state else swap_spaces c.state j k) ≡ ok s1
      → find_min_cached c k ≡ ok (record { state = s1; marks = c.marks })
  find_min_found k cell n j c s1 there cached found moved =
      let step = find_min_step k cell n j c there cached found in
      elim (Bool-cases (k == j)) [
        | inl here ↦
            let unmoved : ok c.state ≡ ok s1 = rw here at moved in
            step
            ∙ rw here (ap (λ s. ok (record { state = s; marks = c.marks })) (ok-injective unmoved))
        | inr away ↦
            let swapped : swap_spaces c.state j k ≡ ok s1 = rw away at moved in
            step ∙ rw (away, swapped) refl
      ]

  find_min_inv :
      (k : ℕ) (s s1 : State)
      → find_min_arity table s k ≡ ok s1
      → (cell : ℕ) × (n : ℕ) × (j : ℕ) × (at s.spaces k ≡ ok cell)
        × (arity table s.board cell ≡ ok n)
        × (search_min (length s.spaces - (k + 1)) table s (k + 1) k n ≡ ok j)
        × ((if k == j then ok s else swap_spaces s j k) ≡ ok s1)
  unfolding find_min_arity
  find_min_inv k s s1 ran =
      let (cell, there, counting) = >>=-eq-ok (at s.spaces k) _ ran in
      let (n, counted, searching) = >>=-eq-ok (arity table s.board cell) _ counting in
      let (j, found, moved) =
        >>=-eq-ok (search_min (length s.spaces - (k + 1)) table s (k + 1) k n)
          (λ j. if k == j then ok s else swap_spaces s j k) searching in
      (cell, n, j, there, counted, found, moved)

  pub find_min_same :
      (k : ℕ) (c : Cache) (s1 : State)
      → IsReady table k c.state
      → IsCached table c.state.board c.marks
      → k < length c.state.spaces
      → find_min_arity table c.state k ≡ ok s1
      → find_min_cached c k ≡ ok (record { state = s1; marks = c.marks })
  find_min_same k c s1 r h lt ran =
      let (cell, n, j, there, counted, found, moved) = find_min_inv k c.state s1 ran in
      let (m, cached, counted') = space_arity k k cell c r h (omega arith) there in
      let e : m ≡ n = ok-injective (sym counted' ∙ counted) in
      let left = length c.state.spaces - (k + 1) in
      let same = search_same left k (k + 1) k n c r h (omega arith) (omega (arith, lt)) in
      find_min_found k cell n j c s1 there (cached ∙ ap (λ a. ok (pos a)) e) (same ∙ found) moved
