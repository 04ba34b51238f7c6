-- ===== src/Sudoku/Cache/Hold.antt =====
-- `hold` and `unhold` of sudoku_min_arity_cache.cc: the marks agree with the board behind a guess, and
-- are what they were behind its retraction.
use cloud_computing_lab.Base.{
  decrement, subst, ℕ, suc, ◌<◌, ◌≤◌, ◌≢◌, ◌≡◌, refl, sym, ap, ◌∙◌, Bool, true, false, not, ◌&&◌,
  List, [], ◌∷◌, ok, arith, ◌==◌, ==_iff, ltb, ltb→lt, lt→ltb, get_or, set, length, Bool-cases, inl,
  inr, increment-decrement, and-true, ℤ, pos,
}
use cloud_computing_lab.Sudoku.Neighbors.{n_cells, member, assert}
use cloud_computing_lab.Sudoku.Table.{IsBoardTable, below}
use cloud_computing_lab.Sudoku.Backtrack.{IsTable}
use cloud_computing_lab.Sudoku.Solver.{State, Table, at, put}
use cloud_computing_lab.Sudoku.Cache.{Cache, Marks, hold, unhold}
use cloud_computing_lab.Sudoku.Cache.Flags.{
  at-inside, get_or-set, occ, free_count, IsWritten, set_occupied_lem,
}
use cloud_computing_lab.Sudoku.Cache.Marking.{
  AreMarks, IsMarkedBy, IsUndone, newly, mark_neighbors_lem, undo_marks_lem,
}
use cloud_computing_lab.Sudoku.Cache.Held.{
  held, count_free, held-put, count_free-put, count_free-same,
}

-- At the empty cells the marks say what the board says.
pub record IsCached (table : Table) (board : List ℕ) (m : Marks) : Type 0 where
  pub marks : AreMarks m
  pub flags :
      (x v : ℕ)
      → get_or board x 1 ≡ 0
      → (1 ≤ v) × (v ≤ 9)
      → occ m.occupied x v ≡ held board v (get_or table x [])
  pub counts :
      (x : ℕ)
      → get_or board x 1 ≡ 0
      → free_count m x ≡ pos (count_free board (get_or table x []) 9 1)

-- The same marks, entry by entry.
pub record AreSame (m m1 : Marks) : Type 0 where
  pub marks : AreMarks m
  pub flags : (x v : ℕ) → occ m.occupied x v ≡ occ m1.occupied x v
  pub counts : (x : ℕ) → free_count m x ≡ free_count m1 x

pub same-IsCached :
    (table : Table) (board : List ℕ) (m m1 : Marks)
    → AreSame m m1
    → IsCached table board m1
    → IsCached table board m
same-IsCached table board m m1 same c = record {
  marks = same.marks;
  flags = λ x v e r. same.flags x v ∙ c.flags x v e r;
  counts = λ x e. same.counts x ∙ c.counts x e;
}

member-inside : (ys : List ℕ) (x : ℕ) → below ys ≡ true → member x ys ≡ true → x < n_cells
member-inside [] x h m = cc
member-inside (y ∷ ys) x h m =
    let (first, later) = and-true (ltb y n_cells) (below ys) h in
    elim (Bool-cases (y == x)) [
      | inl same ↦
          let e : y ≡ x = (==_iff y x).0 same in subst (λ z. z < n_cells) e (ltb→lt y n_cells first)
      | inr differ ↦ member-inside ys x later (ground (arith, differ))
    ]

below-members : (xs : List ℕ) → ((x : ℕ) → member x xs ≡ true → x < n_cells) → below xs ≡ true
below-members [] h = refl
below-members (x ∷ xs) h =
    let first = lt→ltb x n_cells (h x (ground arith)) in
    let later = below-members xs (λ y m. h y (ground arith)) in rw first later

less_by_one : (z z1 : ℤ) (n n1 : ℕ) → z ≡ pos n → n ≡ suc n1 → z1 ≡ decrement z → z1 ≡ pos n1
less_by_one z z1 n n1 e en d = d ∙ ap decrement (e ∙ ap pos en)

-- What `hold` does to the marks.
pub record IsHold (near : List ℕ) (cell g : ℕ) (m m1 : Marks) (modified : List ℕ) : Type 0 where
  pub own : List (List Bool)
  pub written : IsWritten m.occupied cell g true own
  pub marked : IsMarkedBy g near (record { occupied = own; arity = m.arity }) m1 modified

module _ (table : Table) (t : IsBoardTable table) (both : IsTable table) (board : List ℕ)
    (cell g : ℕ) (cells : length board ≡ n_cells) (inside : cell < n_cells)
    (empty : get_or board cell 0 ≡ 0) (low : 1 ≤ g) (high : g ≤ 9) (m m1 : Marks)
    (modified : List ℕ) (k : IsHold (get_or table cell []) cell g m m1 modified)
    (c : IsCached table board m) where
  hold-flags :
      (x v : ℕ)
      → get_or (set board cell g) x 1 ≡ 0
      → (1 ≤ v) × (v ≤ 9)
      → occ m1.occupied x v ≡ held (set board cell g) v (get_or table x [])
  hold-flags x v e (lv, hv) =
      let in_board : cell < length board = omega (arith, cells, inside) in
      let read = get_or-set board cell x g 1 in_board in
      let apart : (cell == x) ≡ false = ground (arith, read, e, low) in
      let before : get_or board x 1 ≡ 0 = ground (arith, read, e, apart) in
      let old = c.flags x v before (lv, hv) in
      let nz : v ≢ 0 = λ z. omega (arith, z, lv) in
      ground (
        arith,
        k.marked.entry x v,
        k.written.entry x v,
        apart,
        old,
        held-put board (get_or table x []) cell g v in_board empty nz,
        both.both_ways x cell,
      )

  hold-counts :
      (x : ℕ)
      → get_or (set board cell g) x 1 ≡ 0
      → free_count m1 x ≡ pos (count_free (set board cell g) (get_or table x []) 9 1)
  hold-counts x e =
      let in_board : cell < length board = omega (arith, cells, inside) in
      let read = get_or-set board cell x g 1 in_board in
      let apart : (cell == x) ≡ false = ground (arith, read, e, low) in
      let before : get_or board x 1 ≡ 0 = ground (arith, read, e, apart) in
      let near = get_or table x [] in
      let put_at = λ (w : ℕ) (le : 1 ≤ w).
        held-put board near cell g w in_board empty (λ z. omega (arith, z, le)) in
      let old = c.flags x g before (low, high) in
      let changed : newly g (get_or table cell []) (record { occupied = k.own; arity = m.arity }) x
          ≡ (member cell near && not (held board g near)) =
        ground (arith, k.written.entry x g, apart, old, both.both_ways x cell) in
      let count = c.counts x before in
      let arity = k.marked.arity x in
      elim (Bool-cases (member cell near && not (held board g near))) [
        | inl yes_new ↦
            let (is_near, free) = and-true (member cell near) (not (held board g near)) yes_new in
            let less =
              count_free-put board (set board cell g) near g 9 1
                (λ w le. ground (arith, put_at w le, is_near)) (ground (arith, free)) in
            less_by_one (free_count m x) (free_count m1 x) _ _ count
              (ground (arith, less, low, high)) (ground (arith, arity, changed, yes_new))
        | inr no_new ↦
            let same =
              count_free-same board (set board cell g) near 9 1
                (λ w le. ground (arith, put_at w le, no_new)) in
            ground (arith, arity, changed, no_new) ∙ count ∙ ap pos (sym same)
      ]

  pub hold-IsCached : IsCached table (set board cell g) m1
  hold-IsCached = record { marks = k.marked.marks; flags = hold-flags; counts = hold-counts }

-- `hold` runs, with a list of changes that tells how to take it back.
pub hold_lem :
    (table : Table) (cell g : ℕ) (c : Cache)
    → IsBoardTable table
    → AreMarks c.marks
    → cell < n_cells
    → g ≤ 9
    → (m1 : Marks) × (modified : List ℕ) × (hold table cell g c
        ≡ ok (record { state = put c.state cell g; marks = m1 }, modified))
      × IsHold (get_or table cell []) cell g c.marks m1 modified
unfolding hold
hold_lem table cell g c t h inside high =
    let (own, wrote, written) =
      set_occupied_lem c.marks.occupied cell g true h.shape inside (omega (arith, high)) in
    let number = t.number in
    let near = get_or table cell [] in
    let found = at-inside table cell [] (omega (arith, number, inside)) in
    let (m1, modified, ran, marked) =
      mark_neighbors_lem g near (record { occupied = own; arity = c.marks.arity })
        (record { shape = written.shape; arities = h.arities }) (t.row cell inside).inside
        (omega (arith, high)) in
    (
      m1,
      modified,
      rw (wrote, found, ran) refl,
      record { own = own; written = written; marked = marked },
    )

-- The marks behind `unhold` are those before `hold`, if the call between them has left them as they
-- were.
module _ (near : List ℕ) (cell g : ℕ) (m m1 m2 m3 : Marks) (modified : List ℕ)
    (own : List (List Bool)) (not_own : member cell near ≡ false)
    (free : occ m.occupied cell g ≡ false) (k : IsHold near cell g m m1 modified)
    (same : AreSame m2 m1) (written : IsWritten m2.occupied cell g false own) where
  still_held : (x : ℕ) → member x modified ≡ true → occ own x g ≡ true
  still_held x e =
      ground (
        arith,
        written.entry x g,
        same.flags x g,
        k.marked.entry x g,
        k.marked.changed x,
        not_own,
        e,
      )

  unhold-AreSame :
      IsUndone g modified (record { occupied = own; arity = m2.arity }) m3 → AreSame m3 m
  unhold-AreSame u = record {
    marks = u.marks;
    flags = λ x v. ground (
      arith,
      u.entry x v,
      written.entry x v,
      same.flags x v,
      k.marked.entry x v,
      k.marked.changed x,
      k.written.entry x v,
      not_own,
      free,
    );
    counts = λ x. ground (
      arith,
      u.arity x,
      same.counts x,
      k.marked.arity x,
      k.marked.changed x,
      increment-decrement (free_count m x),
    );
  }

pub unhold_lem :
    (near : List ℕ) (cell g : ℕ) (m m1 m2 : Marks) (modified : List ℕ) (s1 : State)
    → below near ≡ true
    → cell < n_cells
    → g ≤ 9
    → member cell near ≡ false
    → occ m.occupied cell g ≡ false
    → at s1.board cell ≡ ok g
    → IsHold near cell g m m1 modified
    → AreSame m2 m1
    → (m3 : Marks) × (unhold cell g modified (record { state = s1; marks = m2 })
        ≡ ok (record { state = put s1 cell 0; marks = m3 }))
      × AreSame m3 m
unfolding unhold assert
unhold_lem near cell g m m1 m2 modified s1 within inside high not_own free now k same =
    let (own, wrote, written) =
      set_occupied_lem m2.occupied cell g false same.marks.shape inside (omega (arith, high)) in
    let listed =
      below-members modified
        (λ x e. member-inside near x within (ground (arith, k.marked.changed x, e))) in
    let (m3, ran, undone) =
      undo_marks_lem g modified (record { occupied = own; arity = m2.arity })
        (record { shape = written.shape; arities = same.marks.arities }) listed
        (omega (arith, high)) k.marked.distinct
        (still_held near cell g m m1 m2 m2 modified own not_own free k same written) in
    let equal : (g == g) ≡ true = ground arith in
    (
      m3,
      rw (wrote, now, equal, ran) refl,
      unhold-AreSame near cell g m m1 m2 m3 modified own not_own free k same written undone,
    )
