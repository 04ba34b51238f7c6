-- ===== src/Sudoku/Cache/Marking.antt =====
-- How `mark_neighbors` and `undo_marks` of sudoku_min_arity_cache.cc change the marks.
use cloud_computing_lab.Base.{
  decrement, increment, ℕ, ◌<◌, ◌≡◌, refl, ap, ◌∙◌, Bool, true, false, not, ◌&&◌, ◌||◌, List, [],
  ◌∷◌, ok, arith, if◌then◌else◌, ◌==◌, ==_iff, ltb, ltb→lt, get_or, set, length, length-set,
  Bool-cases, inl, inr, and-true, ℤ, pos,
}
use cloud_computing_lab.Sudoku.Neighbors.{n_cells, member, assert}
use cloud_computing_lab.Sudoku.Table.{below}
use cloud_computing_lab.Sudoku.Cache.{Marks, mark_neighbor, mark_neighbors, undo_marks}
use cloud_computing_lab.Sudoku.Cache.Flags.{
  at-inside, get_or-set, occ, free_count, IsShape, IsWritten, is_occupied_lem, set_occupied_lem,
}

-- The marks of N cells.
pub record AreMarks (m : Marks) : Type 0 where
  pub shape : IsShape m.occupied
  pub arities : length m.arity ≡ n_cells

-- How `mark_neighbors` and `undo_marks` change the marks: by the list of the cells that change.
abbrev pub newly : ℕ → List ℕ → Marks → ℕ → Bool
newly val near m x = member x near && not (occ m.occupied x val)

-- No cell stands twice in the list.
abbrev pub Distinct : List ℕ → Type 0
Distinct [] = Unit {0}
Distinct (x ∷ xs) = (member x xs ≡ false) × Distinct xs

pub record IsMarkedBy (val : ℕ) (near : List ℕ) (m m1 : Marks) (modified : List ℕ) : Type 0 where
  pub marks : AreMarks m1
  pub entry :
      (x w : ℕ)
      → occ m1.occupied x w
        ≡ (if val == w then occ m.occupied x w || member x near else occ m.occupied x w)
  pub arity :
      (x : ℕ)
      → free_count m1 x
        ≡ (if newly val near m x then decrement (free_count m x) else free_count m x)
  pub changed : (x : ℕ) → member x modified ≡ newly val near m x
  pub distinct : Distinct modified

arity_write :
    (f : ℤ → ℤ) (arity : List ℤ) (n x : ℕ)
    → n < length arity
    → get_or (set arity n (f (get_or arity n (pos 0)))) x (pos 0)
      ≡ (if n == x then f (get_or arity x (pos 0)) else get_or arity x (pos 0))
arity_write f arity n x inside =
    let write = get_or-set arity n x (f (get_or arity n (pos 0))) (pos 0) inside in
    elim (Bool-cases (n == x)) [
      | inl same ↦
          let e : n ≡ x = (==_iff n x).0 same in
          write ∙ rw same (ap (λ y. f (get_or arity y (pos 0))) e)
      | inr differ ↦ write ∙ rw differ refl
    ]

mark_neighbor_lem :
    (val n : ℕ) (m : Marks)
    → AreMarks m
    → n < n_cells
    → val < 10
    → (m1 : Marks) × (mark_neighbor val n m ≡ ok m1)
      × AreMarks m1
      × IsWritten m.occupied n val true m1.occupied
      × ((x : ℕ)
          → free_count m1 x ≡ (if n == x then decrement (free_count m x) else free_count m x))
unfolding mark_neighbor
mark_neighbor_lem val n m h ln lv =
    let (occupied, ran, written) = set_occupied_lem m.occupied n val true h.shape ln lv in
    let arities = h.arities in
    let inside : n < length m.arity = omega (arith, arities, ln) in
    let less = decrement (get_or m.arity n (pos 0)) in
    (
      record { occupied = occupied; arity = set m.arity n less },
      rw (ran, at-inside m.arity n (pos 0) inside) refl,
      record { shape = written.shape; arities = length-set m.arity n less ∙ arities },
      written,
      λ x. arity_write decrement m.arity n x inside,
    )

skipped :
    (val n : ℕ) (near : List ℕ) (m m1 : Marks) (modified : List ℕ)
    → occ m.occupied n val ≡ true
    → IsMarkedBy val near m m1 modified
    → IsMarkedBy val (n ∷ near) m m1 modified
skipped val n near m m1 modified taken k = record {
  marks = k.marks;
  entry = λ x w. ground (arith, k.entry x w, taken);
  arity = λ x. ground (arith, k.arity x, taken);
  changed = λ x. ground (arith, k.changed x, taken);
  distinct = k.distinct;
}

marked_first :
    (val n : ℕ) (near : List ℕ) (m m1 m2 : Marks) (modified : List ℕ)
    → occ m.occupied n val ≡ false
    → IsWritten m.occupied n val true m1.occupied
    → ((x : ℕ) → free_count m1 x ≡ (if n == x then decrement (free_count m x) else free_count m x))
    → IsMarkedBy val near m1 m2 modified
    → IsMarkedBy val (n ∷ near) m m2 (n ∷ modified)
marked_first val n near m m1 m2 modified free written less k = record {
  marks = k.marks;
  entry = λ x w. ground (arith, k.entry x w, written.entry x w);
  arity = λ x. ground (arith, k.arity x, less x, written.entry x val, free);
  changed = λ x. ground (arith, k.changed x, written.entry x val, free);
  distinct = (ground (arith, k.changed n, written.entry n val), k.distinct);
}

pub mark_neighbors_lem :
    (val : ℕ) (near : List ℕ) (m : Marks)
    → AreMarks m
    → below near ≡ true
    → val < 10
    → (m1 : Marks) × (modified : List ℕ) × (mark_neighbors val near m ≡ ok (m1, modified))
      × IsMarkedBy val near m m1 modified
unfolding mark_neighbors
mark_neighbors_lem val [] m h inside lv = (
  m,
  [],
  refl,
  record {
    marks = h;
    entry = λ x w. ground arith;
    arity = λ x. refl;
    changed = λ x. refl;
    distinct = tt;
  },
)
mark_neighbors_lem val (n ∷ near) m h inside lv =
    let (within, later) = and-true (ltb n n_cells) (below near) inside in
    let ln = ltb→lt n n_cells within in
    let looked = is_occupied_lem m.occupied n val h.shape ln lv in
    elim (Bool-cases (occ m.occupied n val)) [
      | inl taken ↦
          let (m1, modified, ran, k) = mark_neighbors_lem val near m h later lv in
          (m1, modified, rw (looked, taken) ran, skipped val n near m m1 modified taken k)
      | inr free ↦
          let (m1, wrote, h1, written, less) = mark_neighbor_lem val n m h ln lv in
          let (m2, modified, ran, k) = mark_neighbors_lem val near m1 h1 later lv in
          (
            m2,
            n ∷ modified,
            rw (looked, free, wrote, ran) refl,
            marked_first val n near m m1 m2 modified free written less k,
          )
    ]

-- The marks behind `undo_marks`.
pub record IsUndone (val : ℕ) (modified : List ℕ) (m m1 : Marks) : Type 0 where
  pub marks : AreMarks m1
  pub entry :
      (x w : ℕ)
      → occ m1.occupied x w
        ≡ (if val == w then occ m.occupied x w && not (member x modified) else occ m.occupied x w)
  pub arity :
      (x : ℕ)
      → free_count m1 x ≡ (if member x modified then increment (free_count m x) else free_count m x)

IsUndone-first :
    (val n : ℕ) (modified : List ℕ) (m m1 m2 : Marks)
    → member n modified ≡ false
    → IsWritten m.occupied n val false m1.occupied
    → ((x : ℕ) → free_count m1 x ≡ (if n == x then increment (free_count m x) else free_count m x))
    → IsUndone val modified m1 m2
    → IsUndone val (n ∷ modified) m m2
IsUndone-first val n modified m m1 m2 once written more k = record {
  marks = k.marks;
  entry = λ x w. ground (arith, k.entry x w, written.entry x w);
  arity = λ x. ground (arith, k.arity x, more x, once);
}

pub undo_marks_lem :
    (val : ℕ) (modified : List ℕ) (m : Marks)
    → AreMarks m
    → below modified ≡ true
    → val < 10
    → Distinct modified
    → ((x : ℕ) → member x modified ≡ true → occ m.occupied x val ≡ true)
    → (m1 : Marks) × (undo_marks val modified m ≡ ok m1) × IsUndone val modified m m1
unfolding undo_marks assert
undo_marks_lem val [] m h inside lv d held =
    (m, refl, record { marks = h; entry = λ x w. ground arith; arity = λ x. refl })
undo_marks_lem val (n ∷ modified) m h inside lv (once, d) held =
    let (within, later) = and-true (ltb n n_cells) (below modified) inside in
    let ln = ltb→lt n n_cells within in
    let looked = is_occupied_lem m.occupied n val h.shape ln lv in
    let here : occ m.occupied n val ≡ true = held n (ground arith) in
    let (occupied, wrote, written) = set_occupied_lem m.occupied n val false h.shape ln lv in
    let arities = h.arities in
    let in_arity : n < length m.arity = omega (arith, arities, ln) in
    let more = increment (get_or m.arity n (pos 0)) in
    let m1 : Marks = record { occupied = occupied; arity = set m.arity n more } in
    let h1 : AreMarks m1 = record {
      shape = written.shape;
      arities = length-set m.arity n more ∙ arities;
    } in
    let (m2, ran, k) =
      undo_marks_lem val modified m1 h1 later lv d
        (λ x e. ground (arith, written.entry x val, held x, once, e)) in
    (
      m2,
      rw (looked, here, wrote, at-inside m.arity n (pos 0) in_arity) ran,
      IsUndone-first val n modified m m1 m2 once written
          (λ x. arity_write increment m.arity n x in_arity) k,
    )
