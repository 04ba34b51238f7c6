-- ===== src/Sudoku/Tally.antt =====
-- How often `solved` of neighbor.cc counts each digit in a group of cells.
use cloud_computing_lab.Base.{
  ℕ, zero, suc, ◌+◌, ◌<◌, ◌≤◌, ◌≡◌, ◌≢◌, refl, sym, ap, ◌∙◌, Bool, true, false, not, ◌&&◌, and-true,
  List, [], ◌∷◌, ok, arith, if◌then◌else◌, ltb, leb, leb→le, ◌==◌, ==_iff, get_or, set, length,
  length-set, Bool-cases, inl, inr, ◌⊎◌,
}
use cloud_computing_lab.Sudoku.Neighbors.{n_cells, member}
use cloud_computing_lab.Sudoku.Table.{below}
use cloud_computing_lab.Sudoku.Solver.{at}
use cloud_computing_lab.Sudoku.Backtrack.{at-get_or}
use cloud_computing_lab.Sudoku.Cache.Flags.{at-inside, get_or-set}
use cloud_computing_lab.Sudoku.Solved.{tally}

-- A board with a digit from 1 to 9 at each of its cells.
abbrev pub IsFilled : List ℕ → Type 0
IsFilled board = (c : ℕ) → c < n_cells → (v : ℕ) × (at board c ≡ ok v) × (1 ≤ v) × (v ≤ 9)

-- How many cells of a group hold a digit.
pub hits : List ℕ → ℕ → List ℕ → ℕ
hits board d [] = 0
hits board d (c ∷ cells) =
    let rest = hits board d cells in if get_or board c 0 == d then rest + 1 else rest

-- No cell of a group twice.
abbrev pub distinct : List ℕ → Bool
distinct [] = true
distinct (c ∷ cells) = let rest = distinct cells in not (member c cells) && rest

-- No two cells of a group with one value.
abbrev pub Differ : List ℕ → List ℕ → Type 0
Differ board cells =
    (a b : ℕ)
    → member a cells ≡ true
    → member b cells ≡ true
    → a ≢ b
    → get_or board a 0 ≢ get_or board b 0

member_here : (c : ℕ) (cells : List ℕ) → member c (c ∷ cells) ≡ true
member_here c cells = ground arith

member_later : (a c : ℕ) (cells : List ℕ) → member a cells ≡ true → member a (c ∷ cells) ≡ true
member_later a c cells h = ground (arith, h)

member_split :
    (a c : ℕ) (cells : List ℕ) → member a (c ∷ cells) ≡ true → (c ≡ a) ⊎ (member a cells ≡ true)
member_split a c cells h = elim (Bool-cases (c == a)) [
  | inl same ↦ inl ((==_iff c a).0 same)
  | inr differ ↦ inr (rw differ at h)
]

member-hits :
    (board : List ℕ) (a : ℕ) (cells : List ℕ)
    → member a cells ≡ true
    → 1 ≤ hits board (get_or board a 0) cells
unfolding hits
member-hits board a [] h = cc
member-hits board a (c ∷ cells) h = elim (member_split a c cells h) [
  | inl same ↦ ground (arith, same)
  | inr later ↦ let rest = member-hits board a cells later in ground (arith, rest)
]

pub hits-member :
    (board : List ℕ) (d : ℕ) (cells : List ℕ)
    → 1 ≤ hits board d cells
    → (a : ℕ) × (member a cells ≡ true) × (get_or board a 0 ≡ d)
unfolding hits
hits-member board d [] h = absurd (omega arith)
hits-member board d (c ∷ cells) h = elim (Bool-cases (get_or board c 0 == d)) [
  | inl same ↦ (c, member_here c cells, (==_iff (get_or board c 0) d).0 same)
  | inr differ ↦
      let (a, inside, held) = hits-member board d cells (rw differ at h) in
      (a, member_later a c cells inside, held)
]

pub two_hits :
    (board : List ℕ) (a b : ℕ) (cells : List ℕ)
    → member a cells ≡ true
    → member b cells ≡ true
    → a ≢ b
    → get_or board a 0 ≡ get_or board b 0
    → 2 ≤ hits board (get_or board a 0) cells
unfolding hits
two_hits board a b [] ha hb ne e = cc
two_hits board a b (c ∷ cells) ha hb ne e = elim (member_split a c cells ha) [
  | inl x ↦ elim (member_split b c cells hb) [
    | inl y ↦ absurd (ne (sym x ∙ y))
    | inr y ↦ let rest = member-hits board b cells y in ground (arith, rest, e, x)
  ]
  | inr x ↦ elim (member_split b c cells hb) [
    | inl y ↦ let rest = member-hits board a cells x in ground (arith, rest, e, y)
    | inr y ↦ let rest = two_hits board a b cells x y ne e in ground (arith, rest)
  ]
]

pub hits_once :
    (board : List ℕ) (d : ℕ) (cells : List ℕ)
    → distinct cells ≡ true
    → Differ board cells
    → hits board d cells ≤ 1
unfolding hits
hits_once board d [] h differ = omega arith
hits_once board d (c ∷ cells) h differ =
    let (new, others) = and-true (not (member c cells)) (distinct cells) h in
    let rest =
      hits_once board d cells others
        (λ a b x y ne. differ a b (member_later a c cells x) (member_later b c cells y) ne) in
    elim (Bool-cases (get_or board c 0 == d)) [
      | inl same ↦ elim (Bool-cases (leb 1 (hits board d cells))) [
        | inl more ↦
            let (a, inside, held) = hits-member board d cells (leb→le 1 _ more) in
            let ne : c ≢ a = λ e. ground (arith, new, inside, ap (λ x. member x cells) e) in
            absurd (
              differ c a (member_here c cells) (member_later a c cells inside) ne
                ((==_iff (get_or board c 0) d).0 same ∙ sym held))
        | inr none_more ↦ ground (arith, same, none_more)
      ]
      | inr other ↦ rw other rest
    ]

-- The sum of the counts.
unfoldable pub sum : List ℕ → ℕ
sum [] = 0
sum (n ∷ ns) = let rest = sum ns in n + rest

sum-set : (ns : List ℕ) (i v : ℕ) → i < length ns → sum (set ns i v) + get_or ns i 0 ≡ sum ns + v
unfolding sum
sum-set [] i v h = absurd (omega arith)
sum-set (n ∷ ns) zero v h = omega arith
sum-set (n ∷ ns) (suc i) v h = omega (arith, sum-set ns i v (omega arith))

-- What the loops leave in `occurs`.
pub record IsTally (board cells occurs after : List ℕ) : Type 0 where
  pub number : length after ≡ 10
  pub entry : (d : ℕ) → get_or after d 0 ≡ get_or occurs d 0 + hits board d cells
  pub total : sum after ≡ sum occurs + length cells

tally_entry :
    (board : List ℕ) (c : ℕ) (cells occurs after : List ℕ) (v d : ℕ)
    → get_or board c 0 ≡ v
    → get_or (set occurs v (get_or occurs v 0 + 1)) d 0
      ≡ (if v == d then get_or occurs v 0 + 1 else get_or occurs d 0)
    → get_or after d 0 ≡ get_or (set occurs v (get_or occurs v 0 + 1)) d 0 + hits board d cells
    → get_or after d 0 ≡ get_or occurs d 0 + hits board d (c ∷ cells)
unfolding hits
tally_entry board c cells occurs after v d held write rest = elim (Bool-cases (v == d)) [
  | inl same ↦
      let e : v ≡ d = (==_iff v d).0 same in
      let old = ap (λ x. get_or occurs x 0) e in
      let now = rw same at write in
      let here : (get_or board c 0 == d) ≡ true = ground (arith, held, same) in
      rw here (omega (arith, old, now, rest))
  | inr differ ↦
      let now = rw differ at write in
      let there : (get_or board c 0 == d) ≡ false = ground (arith, held, differ) in
      rw there (omega (arith, now, rest))
]

pub tally_lem :
    (board cells occurs : List ℕ)
    → IsFilled board
    → below cells ≡ true
    → length occurs ≡ 10
    → (after : List ℕ) × (tally board cells occurs ≡ ok after) × IsTally board cells occurs after
unfolding tally hits
tally_lem board [] occurs f inside l =
    (occurs, refl, record { number = l; entry = λ d. omega arith; total = omega arith })
tally_lem board (c ∷ cells) occurs f inside l =
    let (here, later) = and-true (ltb c n_cells) (below cells) inside in
    let (v, ev, low, high) = f c (ground (arith, here)) in
    let n = get_or occurs v 0 in
    let next = set occurs v (n + 1) in
    let (after, made, t) = tally_lem board cells next f later (length-set occurs v (n + 1) ∙ l) in
    let read = at-inside occurs v 0 (omega (arith, l, high)) in
    let held = (at-get_or board c v 0 ev).0 in
    (
      after,
      rw (ev, read) made,
      record {
        number = t.number;
        entry = λ d.
            tally_entry board c cells occurs after v d held
              (get_or-set occurs v d (n + 1) 0 (omega (arith, l, high))) (t.entry d);
        total =
            let one = t.total in
            let s = sum-set occurs v (n + 1) (omega (arith, l, high)) in omega (arith, one, s);
      },
    )
