-- ===== src/Sudoku/Cache/Flags.antt =====
-- What the array `occupied` of sudoku_min_arity_cache.cc says of each cell and digit, and how a write
-- changes it.
use cloud_computing_lab.Base.{
  ℕ, zero, suc, ◌<◌, ◌≡◌, refl, ap, ◌∙◌, Bool, false, List, [], ◌∷◌, ok, arith, if◌then◌else◌, ◌==◌,
  ==_iff, get_or, set, length, length-set, Bool-cases, inl, inr, get_or-set_ne, get_or-set_self, ℤ,
  pos,
}
use cloud_computing_lab.Sudoku.Neighbors.{n_cells}
use cloud_computing_lab.Sudoku.Solver.{at}
use cloud_computing_lab.Sudoku.Cache.{Marks, is_occupied, set_occupied}

pub at-inside {ℓ} :
    {A : Type ℓ} (xs : List A) (i : ℕ) (d : A) → i < length xs → at xs i ≡ ok (get_or xs i d)
at-inside [] i d h = absurd (omega arith)
at-inside (x ∷ xs) zero d h = refl
at-inside (x ∷ xs) (suc i) d h = at-inside xs i d (omega arith)

pub get_or-set {ℓ} :
    {A : Type ℓ} (xs : List A) (i j : ℕ) (v d : A)
    → i < length xs
    → get_or (set xs i v) j d ≡ (if i == j then v else get_or xs j d)
get_or-set xs i j v d h = elim (Bool-cases (i == j)) [
  | inl same ↦
      let e : i ≡ j = (==_iff i j).0 same in rw same (rw (← e) (get_or-set_self xs i v d h))
  | inr differ ↦ rw differ (get_or-set_ne xs i j v d (ground (arith, differ)))
]

-- Whether a digit is marked at a cell, and the arity of a cell.
abbrev pub occ : List (List Bool) → ℕ → ℕ → Bool
occ occupied x v = get_or (get_or occupied x []) v false

abbrev pub free_count : Marks → ℕ → ℤ
free_count m x = get_or m.arity x (pos 0)

-- Ten entries for each of the N cells.
pub record IsShape (occupied : List (List Bool)) : Type 0 where
  pub rows : length occupied ≡ n_cells
  pub row : (x : ℕ) → x < n_cells → length (get_or occupied x []) ≡ 10

pub is_occupied_lem :
    (occupied : List (List Bool)) (x v : ℕ)
    → IsShape occupied
    → x < n_cells
    → v < 10
    → is_occupied occupied x v ≡ ok (occ occupied x v)
unfolding is_occupied
is_occupied_lem occupied x v h lx lv =
    let rows = h.rows in
    let row = h.row x lx in
    rw (at-inside occupied x [] (omega (arith, rows, lx)))
      (at-inside (get_or occupied x []) v false (omega (arith, row, lv)))

-- What a write leaves in the array.
pub record IsWritten (occupied : List (List Bool)) (x v : ℕ) (b : Bool) (after : List (List Bool))
    : Type 0 where
  pub shape : IsShape after
  pub entry :
      (y w : ℕ)
      → occ after y w
        ≡ (if x == y then (if v == w then b else occ occupied y w) else occ occupied y w)

entry_lem :
    (occupied : List (List Bool)) (x v : ℕ) (b : Bool) (y w : ℕ)
    → x < length occupied
    → v < length (get_or occupied x [])
    → occ (set occupied x (set (get_or occupied x []) v b)) y w
      ≡ (if x == y then (if v == w then b else occ occupied y w) else occ occupied y w)
entry_lem occupied x v b y w lx lv =
    let own = get_or occupied x [] in
    let write = get_or-set occupied x y (set own v b) [] lx in
    elim (Bool-cases (x == y)) [
      | inl same ↦
          let e : x ≡ y = (==_iff x y).0 same in
          let here : get_or (set occupied x (set own v b)) y [] ≡ set own v b = rw same at write in
          rw (here, same)
            (get_or-set own v w b false lv ∙ ap (λ z. if v == w then b else occ occupied z w) e)
      | inr differ ↦
          let there : get_or (set occupied x (set own v b)) y [] ≡ get_or occupied y [] =
            rw differ at write in
          rw (there, differ) refl
    ]

write-IsShape :
    (occupied : List (List Bool)) (x v : ℕ) (b : Bool)
    → IsShape occupied
    → x < n_cells
    → IsShape (set occupied x (set (get_or occupied x []) v b))
write-IsShape occupied x v b h lx =
    let rows = h.rows in
    let own = get_or occupied x [] in
    record {
      rows = length-set occupied x (set own v b) ∙ rows;
      row = λ y ly. elim (Bool-cases (x == y)) [
        | inl same ↦
            let write = get_or-set occupied x y (set own v b) [] (omega (arith, rows, lx)) in
            let here : get_or (set occupied x (set own v b)) y [] ≡ set own v b =
              rw same at write in
            ap length here ∙ length-set own v b ∙ h.row x lx
        | inr differ ↦
            let write = get_or-set occupied x y (set own v b) [] (omega (arith, rows, lx)) in
            let there : get_or (set occupied x (set own v b)) y [] ≡ get_or occupied y [] =
              rw differ at write in
            ap length there ∙ h.row y ly
      ];
    }

pub set_occupied_lem :
    (occupied : List (List Bool)) (x v : ℕ) (b : Bool)
    → IsShape occupied
    → x < n_cells
    → v < 10
    → (after : List (List Bool)) × (set_occupied occupied x v b ≡ ok after)
      × IsWritten occupied x v b after
unfolding set_occupied
set_occupied_lem occupied x v b h lx lv =
    let rows = h.rows in
    let row = h.row x lx in
    let inside : x < length occupied = omega (arith, rows, lx) in
    let own = get_or occupied x [] in
    let within : v < length own = omega (arith, row, lv) in
    (
      set occupied x (set own v b),
      rw (at-inside occupied x [] inside, at-inside own v false within) refl,
      record {
        shape = write-IsShape occupied x v b h lx;
        entry = λ y w. entry_lem occupied x v b y w inside within;
      },
    )
