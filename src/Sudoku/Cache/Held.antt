-- ===== src/Sudoku/Cache/Held.antt =====
-- The digits that the neighbours of a cell hold: what `available` and `arity` compute, and how a guess
-- changes it.
use cloud_computing_lab.Base.{
  ℕ, zero, suc, ◌+◌, ◌<◌, ◌≤◌, ◌≢◌, ◌≡◌, refl, ap, ◌∙◌, Bool, true, false, not, ◌&&◌, ◌||◌, List,
  [], ◌∷◌, ok, arith, if◌then◌else◌, ◌==◌, ==_iff, leb, ltb, ltb→lt, get_or, set, length,
  length-set, replicate, Bool-cases, inl, inr, and-true,
}
use cloud_computing_lab.Sudoku.Neighbors.{n_cells, member}
use cloud_computing_lab.Sudoku.Table.{IsBoardTable, below}
use cloud_computing_lab.Sudoku.Search.{IsBoard}
use cloud_computing_lab.Sudoku.Solver.{Table, none_holds, available, occupy, count_false, arity}
use cloud_computing_lab.Sudoku.Cache.Flags.{at-inside, get_or-set}

-- Whether a cell of the list holds the digit.
abbrev pub held : List ℕ → ℕ → List ℕ → Bool
held board v [] = false
held board v (n ∷ near) = let rest = held board v near in (get_or board n 0 == v) || rest

-- How many of so many digits from `v` on no cell of the list holds.
pub count_free : List ℕ → List ℕ → ℕ → ℕ → ℕ
count_free board near zero v = 0
count_free board near (suc left) v =
    let rest = count_free board near left (v + 1) in if held board v near then rest else rest + 1

none_holds-held :
    (board near : List ℕ) (v : ℕ)
    → length board ≡ n_cells
    → below near ≡ true
    → none_holds board v near ≡ ok (not (held board v near))
unfolding none_holds
none_holds-held board [] v cells h = refl
none_holds-held board (n ∷ near) v cells h =
    let (within, later) = and-true (ltb n n_cells) (below near) h in
    let lt = ltb→lt n n_cells within in
    let read = at-inside board n 0 (omega (arith, cells, lt)) in
    let rest = none_holds-held board near v cells later in
    elim (Bool-cases (get_or board n 0 == v)) [
      | inl hit ↦ rw (read, hit) refl
      | inr miss ↦ rw (read, miss) rest
    ]

occupy-held :
    (board near : List ℕ) (occupied : List Bool)
    → IsBoard board
    → below near ≡ true
    → length occupied ≡ 10
    → (o : List Bool) × (occupy board near occupied ≡ ok o)
      × (length o ≡ 10)
      × ((v : ℕ) → get_or o v false ≡ get_or occupied v false || held board v near)
unfolding occupy
occupy-held board [] occupied b h l = (occupied, refl, l, λ v. ground arith)
occupy-held board (n ∷ near) occupied b h l =
    let (within, later) = and-true (ltb n n_cells) (below near) h in
    let lt = ltb→lt n n_cells within in
    let cells = b.cells in
    let read = at-inside board n 0 (omega (arith, cells, lt)) in
    let w = get_or board n 0 in
    let small : w ≤ 9 = b.values n w read in
    let inside : w < length occupied = omega (arith, l, small) in
    let seen = at-inside occupied w false inside in
    let (o, ran, lo, entry) =
      occupy-held board near (set occupied w true) b later (length-set occupied w true ∙ l) in
    (
      o,
      rw (read, seen) ran,
      lo,
      λ v. ground (arith, entry v, get_or-set occupied w v true false inside),
    )

-- `std::count` over the digits of a row.
count_false-free :
    (board near : List ℕ) (digits : List Bool) (v : ℕ)
    → ((i : ℕ) → i < length digits → get_or digits i false ≡ held board (v + i) near)
    → count_false digits ≡ count_free board near (length digits) v
unfolding count_false count_free
count_false-free board near [] v h = refl
count_false-free board near (b ∷ bs) v h =
    let here = h 0 (omega arith) in
    let e : v + 0 ≡ v = omega arith in
    let first : b ≡ held board v near = rw e at here in
    let rest = count_false-free board near bs (v + 1) (λ i lt.
      let e' : (v + 1) + i ≡ v + suc i = omega arith in rw e' (h (suc i) (omega (arith, lt)))) in
    ground (arith, first, rest)

pub available_lem :
    (table : Table) (board : List ℕ) (v cell : ℕ)
    → IsBoardTable table
    → IsBoard board
    → cell < n_cells
    → available table board v cell ≡ ok (not (held board v (get_or table cell [])))
unfolding available
available_lem table board v cell t b lt =
    let number = t.number in
    let found = at-inside table cell [] (omega (arith, number, lt)) in
    rw found (none_holds-held board (get_or table cell []) v b.cells (t.row cell lt).inside)

no_digit : (n v : ℕ) → get_or (replicate n false) v false ≡ false
no_digit zero v = refl
no_digit (suc n) zero = refl
no_digit (suc n) (suc v) = no_digit n v

digits_counted :
    (board near : List ℕ) (o : List Bool)
    → length o ≡ 10
    → ((v : ℕ) → get_or o v false ≡ get_or (replicate 10 false) v false || held board v near)
    → (first : Bool) × (digits : List Bool) × (o ≡ first ∷ digits)
      × (count_false digits ≡ count_free board near 9 1)
digits_counted board near [] l entry = absurd (omega (arith, l))
digits_counted board near (first ∷ digits) l entry =
    let nine : length digits ≡ 9 = omega (arith, l) in
    (
      first,
      digits,
      refl,
      count_false-free board near digits 1 (λ i lt.
            let e : 1 + i ≡ suc i = omega arith in
            rw e (ground (arith, entry (suc i), no_digit 10 (suc i))))
          ∙ ap (λ n. count_free board near n 1) nine,
    )

pub arity_lem :
    (table : Table) (board : List ℕ) (cell : ℕ)
    → IsBoardTable table
    → IsBoard board
    → cell < n_cells
    → arity table board cell ≡ ok (count_free board (get_or table cell []) 9 1)
unfolding arity
arity_lem table board cell t b lt =
    let number = t.number in
    let near = get_or table cell [] in
    let found = at-inside table cell [] (omega (arith, number, lt)) in
    let (o, ran, lo, entry) =
      occupy-held board near (replicate 10 false) b (t.row cell lt).inside refl in
    let (first, digits, split, counted) = digits_counted board near o lo entry in
    rw (found, ran, split) (ap ok counted)

-- A guess in an empty cell shows at its neighbours only.
pub held-put :
    (board near : List ℕ) (cell g v : ℕ)
    → cell < length board
    → get_or board cell 0 ≡ 0
    → v ≢ 0
    → held (set board cell g) v near ≡ held board v near || (g == v && member cell near)
held-put board [] cell g v lt empty nz = ground arith
held-put board (n ∷ near) cell g v lt empty nz =
    ground (arith, get_or-set board cell n g 0 lt, held-put board near cell g v lt empty nz)

-- The count is one less if a free digit among those that are counted is held now.
pub count_free-put :
    (board board' near : List ℕ) (g left v : ℕ)
    → ((w : ℕ) → v ≤ w → held board' w near ≡ held board w near || g == w)
    → held board g near ≡ false
    → count_free board near left v
      ≡ count_free board' near left v + (if leb v g && ltb g (v + left) then 1 else 0)
unfolding count_free
count_free-put board board' near g zero v h free = ground arith
count_free-put board board' near g (suc left) v h free =
    let rest = count_free-put board board' near g left (v + 1) (λ w le. h w (omega arith)) free in
    elim (Bool-cases (g == v)) [
      | inl same ↦
          let e : g ≡ v = (==_iff g v).0 same in
          let here : held board v near ≡ false = rw (← e) free in
          ground (arith, rest, h v (omega arith), here)
      | inr differ ↦ ground (arith, rest, h v (omega arith), differ)
    ]

pub count_free-same :
    (board board' near : List ℕ) (left v : ℕ)
    → ((w : ℕ) → v ≤ w → held board' w near ≡ held board w near)
    → count_free board' near left v ≡ count_free board near left v
unfolding count_free
count_free-same board board' near zero v h = refl
count_free-same board board' near (suc left) v h = ground (
  arith,
  h v (omega arith),
  count_free-same board board' near left (v + 1) (λ w le. h w (omega arith)),
)

pub count_free-none :
    (board near : List ℕ) (left v : ℕ)
    → ((w : ℕ) → v ≤ w → held board w near ≡ false)
    → count_free board near left v ≡ left
unfolding count_free
count_free-none board near zero v h = refl
count_free-none board near (suc left) v h =
    ground (
      arith,
      h v (omega arith),
      count_free-none board near left (v + 1) (λ w le. h w (omega arith)),
    )
