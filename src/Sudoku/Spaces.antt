-- ===== src/Sudoku/Spaces.antt =====
-- The empty cells of a board, and the part of `spaces` that names them.
use cloud_computing_lab.Base.{
  ℕ, zero, suc, ◌+◌, ◌<◌, ◌≤◌, ◌≢◌, ◌≡◌, refl, ap, ◌∙◌, List, [], ◌∷◌, ok, arith, if◌then◌else◌,
  ◌==◌, get_or, set, length, drop, ok-injective,
}
use cloud_computing_lab.Sudoku.Solver.{at}

-- How often a cell stands in a list.
abbrev pub count : ℕ → List ℕ → ℕ
count c [] = 0
count c (x ∷ xs) = (if x == c then 1 else 0) + count c xs

-- 1 for an empty cell of the board, else 0.
abbrev pub empty_here : List ℕ → ℕ → ℕ
empty_here board c = if get_or board c 1 == 0 then 1 else 0

-- From `k` on, `spaces` names each empty cell once, and nothing else.
abbrev pub Covers : ℕ → List ℕ → List ℕ → Type 0
Covers k spaces board = (c : ℕ) → count c (drop k spaces) ≡ empty_here board c

pub drop-at : (xs : List ℕ) (k x : ℕ) → at xs k ≡ ok x → drop k xs ≡ x ∷ drop (suc k) xs
drop-at [] k x h = cc
drop-at (y ∷ xs) zero x h = ap (λ z. z ∷ xs) (ok-injective h)
drop-at (y ∷ xs) (suc k) x h = drop-at xs k x h

pub drop_end : (xs : List ℕ) (k : ℕ) → length xs ≤ k → drop k xs ≡ []
drop_end [] zero h = refl
drop_end [] (suc k) h = refl
drop_end (x ∷ xs) zero h = absurd (omega arith)
drop_end (x ∷ xs) (suc k) h = drop_end xs k (omega arith)

count-set :
    (xs : List ℕ) (i x y c : ℕ)
    → at xs i ≡ ok y
    → count c (set xs i x) + (if y == c then 1 else 0) ≡ count c xs + (if x == c then 1 else 0)
count-set [] i x y c h = cc
count-set (z ∷ xs) zero x y c h = let e = ok-injective h in rw e (omega arith)
count-set (z ∷ xs) (suc i) x y c h = omega (arith, count-set xs i x y c h)

-- A write behind the first `k` places.
count-drop-set :
    (xs : List ℕ) (k i x y c : ℕ)
    → at xs i ≡ ok y
    → k ≤ i
    → count c (drop k (set xs i x)) + (if y == c then 1 else 0)
      ≡ count c (drop k xs) + (if x == c then 1 else 0)
count-drop-set xs zero i x y c h le = count-set xs i x y c h
count-drop-set [] (suc k) i x y c h le = cc
count-drop-set (z ∷ xs) (suc k) zero x y c h le = absurd (omega arith)
count-drop-set (z ∷ xs) (suc k) (suc i) x y c h le = count-drop-set xs k i x y c h (omega arith)

pub at-set_ne : (xs : List ℕ) (i j v : ℕ) → i ≢ j → at (set xs i v) j ≡ at xs j
at-set_ne [] i j v h = refl
at-set_ne (x ∷ xs) zero zero v h = absurd (h refl)
at-set_ne (x ∷ xs) zero (suc j) v h = refl
at-set_ne (x ∷ xs) (suc i) zero v h = refl
at-set_ne (x ∷ xs) (suc i) (suc j) v h = at-set_ne xs i j v (λ e. h (ap suc e))

-- A swap of two places from `k` on.
pub count-swap :
    (xs : List ℕ) (k i j a b c : ℕ)
    → at xs i ≡ ok a
    → at xs j ≡ ok b
    → i ≢ j
    → k ≤ i
    → k ≤ j
    → count c (drop k (set (set xs i b) j a)) ≡ count c (drop k xs)
count-swap xs k i j a b c ha hb ne li lj = omega (
  arith,
  count-drop-set (set xs i b) k j a b c (at-set_ne xs i j b ne ∙ hb) lj,
  count-drop-set xs k i b a c ha li,
)

pub at-total {ℓ} : {A : Type ℓ} (xs : List A) (i : ℕ) → i < length xs → (x : A) × (at xs i ≡ ok x)
at-total [] i h = absurd (omega arith)
at-total (x ∷ xs) zero h = (x, refl)
at-total (x ∷ xs) (suc i) h = at-total xs i (omega arith)

pub at-empty : (board : List ℕ) (c : ℕ) → empty_here board c ≡ 1 → at board c ≡ ok 0
at-empty [] c h = absurd (omega arith)
at-empty (x ∷ board) zero h = ap ok (ground arith)
at-empty (x ∷ board) (suc c) h = at-empty board c h

pub empty-at : (board : List ℕ) (c : ℕ) → at board c ≡ ok 0 → empty_here board c ≡ 1
empty-at [] c h = cc
empty-at (x ∷ board) zero h = let e = ok-injective h in rw e
empty-at (x ∷ board) (suc c) h = empty-at board c h
